-- ===== src/Lib.antt =====
-- quack-oracle: a DuckDB extension that speaks Oracle's network protocol.
--
-- The protocol is built in layers, and the files below follow them. Byte buffers read and write the
-- fields of a message; TNS packets carry a message over a byte stream; the TTC channel sends requests
-- and receives responses over the packets. Above them a session keeps a registry of its statements,
-- whose texts, binds and values are checked and encoded; a transaction writes to at most one session,
-- and pools keep the sessions.
--
-- - Base: shared notation, lists over the native numbers, errors as values, signed integers, and the
--   monad of methods that change an object and may throw.
-- - Wire: src/byte_buffer.cpp. Wire/Reader.antt is ByteReader and Wire/Writer.antt is ByteWriter, a
--   definition for each method. Wire/Safe.antt has rules for what is put together from the reads.
-- - Tns: src/tns_packet.cpp (Tns/Packet.antt), src/data_assembler.cpp (Tns/Assembler.antt) and
--   src/byte_stream.cpp (Tns/Stream.antt).
-- - Ttc: src/ttc_channel.cpp (Ttc/Channel.antt sends and cancels, Ttc/Receiving.antt receives,
--   Ttc/Requests.antt has Ping, Commit and Rollback), src/ttc_piggyback.cpp (Ttc/Piggyback.antt and, for
--   what the server sends, Ttc/Report.antt), src/ttc_transaction.cpp (Ttc/Acknowledgement.antt) and
--   src/ttc_error.cpp (Ttc/ErrorInfo.antt and Ttc/ErrorText.antt). The channel stands on an interface,
--   PacketStream, which Tns/Stream.antt fills over any byte stream.
-- - Transaction: src/transaction.cpp, one DuckDB transaction over a session that it writes to.
--   Transaction/Threads.antt runs its locked sections in any order, Transaction/Phases.antt has the
--   phases that are seen from outside, and Transaction/Refinement.antt compares the two.
-- - Statements: src/statement_registry.cpp, the handles of a session and the server cursors bound to them.
-- - SessionPool: src/session_pool.cpp. SessionPool/Threads.antt runs its locked sections in any order.
-- - TransactionPool: src/transaction_session_pool.cpp, the idle sessions between transactions. Its Threads
--   module does the same for this pool, Acquire follows one call among what others do, Release one return.
-- - Values: src/value_codec.cpp. Values/Date.antt has DATE and TIMESTAMP, Values/Interval.antt the two
--   intervals, Values/Binary.antt the binary floats as bit patterns; their round trips stand in
--   DateRound, TimestampRound, IntervalRound and BinaryRound. Values/Calendar.antt is the wall clock of
--   a zone and Values/Rowid.antt the text of a ROWID. Values/Number.antt writes a NUMBER from its text,
--   Values/NumberText.antt reads it as text and Values/Integer.antt as a 64-bit integer.
-- - Sql: src/sql_statement.cpp. Sql.antt has the scanners and Sql/Lexemes.antt what they look for, told
--   without a scanner; Sql/Keyword.antt has the classification and Sql/Block.antt the end of an
--   anonymous block.
-- - Binds: src/bind_validation.cpp (Binds.antt), src/sql_binds.cpp (Binds/Placeholders.antt and
--   Binds/Order.antt), and the checks of whole statements in src/sql_statement.cpp
--   (Binds/Statements.antt).
-- - Callable: src/call_builder.cpp, the names of procedures and functions and the blocks that call them;
--   Callable/Components.antt compares the two functions that read a name.
-- - Calls: src/call_registry.cpp, the cursors that procedure calls return; Calls/Handle.antt is the text of
--   a handle, Calls/FreeId.antt and Calls/Registered.antt are about `Register`, Calls/Once.antt about
--   `Take`.
--
-- Conventions. A byte is a number below 256 and a wide integer a number below its width; a cast or a
-- shift that loses bits is written as `%` or `/`, and `|` of values that share no bit as a sum. An
-- exception is the `err` of `Result` with its kind; the text of a message is not modelled. A loop
-- recurs on the rounds that the source counts, on a list, or on fuel. `stuck` stands for fuel that
-- ran out. That it is not reached is shown of the loops that a result below is about, under its
-- conditions: a byte stream that moves bytes, an SDU with room for a byte of the message, a comment or
-- text that a scanner can skip. The fuel of a reader's or writer's loop is one more than the bytes
-- left, and every round takes at least one; the transaction pool's `Acquire` has the rounds as an
-- argument, since other threads may return sessions while it looks; the fuel of the SQL scanners is
-- one more than the bytes of the text, as is that of the loop that skips a server's reports. The loop
-- of the channel's `Receive` has none in the source but its counters: its fuel is the number of
-- packets that it takes. Where the source would throw an exception that is no ProtocolError, in
-- Binds/Order.antt, `stuck` stands too. The search for a free call id has two steps more than there are
-- calls, since no id is met twice. Nothing is shown of the fuel of Values.minutes_up and minutes_down,
-- 36 rounds for an hour of 8 bits and an offset of 16. The clock of a pool does not throw.
--
-- Not modelled: the DuckDB side (planning, catalog, vectors), sockets and TLS, the authentication, and
-- the messages that execute a statement and fetch its rows with the layers that send them.
pub mod Base
pub mod Binds
pub mod Callable
pub mod Calls
pub mod SessionPool
pub mod Sql
pub mod Statements
pub mod Tns
pub mod Transaction
pub mod TransactionPool
pub mod Ttc
pub mod Values
pub mod Wire
