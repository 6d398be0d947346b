-- ===== src/Wire/Reader.antt =====
-- ByteReader of src/byte_buffer.cpp. The vector is split at the cursor: `position` counts the bytes
-- that are read, and `rest` is data[position .. size). A byte is a number below 256; `|` of values
-- that share no bit is written as their sum. A reader is not used after it has thrown, so an error
-- carries no reader.
use quack_oracle.Base.{
  ◌≡◌, ℕ, zero, suc, ◌+◌, ◌-◌, ◌*◌, ◌%◌, ◌^◌, Bool, Option, none, some, List, [], ◌∷◌, ◌++◌, ltb,
  leb, ◌==◌, ◌||◌, if◌then◌else◌, length, take, drop, Result, ok, err, stuck, ProtocolErrorKind,
  truncated, malformed, limit_exceeded,
}

pub record ByteReader : Type 0 where
  pub position : ℕ
  pub rest : List ℕ

abbrev pub reader : ℕ → List ℕ → ByteReader
reader p bytes = record { position = p; rest = bytes }

abbrev pub Read : Type 0 → Type 0
Read A = ByteReader → Result (A × ByteReader)

infixl 5 ◌>>=◌ ◌>>◌
abbrev pub ◌>>=◌ : {A B : Type 0} → Read A → (A → Read B) → Read B
◌>>=◌ m f r = elim (m r) [ ok (a, r') ↦ f a r' | err e ↦ err e | stuck ↦ stuck ]

abbrev pub ◌>>◌ : {B : Type 0} → Read (Unit {0}) → Read B → Read B
m >> k = m >>= λ _. k

-- A step whose result is known hands it on.
pub bind-ok :
    {A B : Type 0} (m : Read A) (f : A → Read B) (r : ByteReader) {a : A} {r' : ByteReader}
    → m r ≡ ok (a, r')
    → (m >>= f) r ≡ f a r'
bind-ok m f r e = rw (e, ◌>>=◌)

pub landed :
    {A : Type 0} {a b : A} (i j : ℕ) (rest : List ℕ)
    → a ≡ b
    → i ≡ j
    → ◌≡◌ {A = Result (A × ByteReader)} (ok (a, reader i rest)) (ok (b, reader j rest))
landed i j rest e f = rw (e, f)

abbrev pub pure : {A : Type 0} → A → Read A
pure a r = ok (a, r)

abbrev pub throw : {A : Type 0} → ProtocolErrorKind → Read A
throw e r = err e

abbrev pub throw_if : Bool → ProtocolErrorKind → Read (Unit {0})
throw_if b e = if b then throw e else pure tt

abbrev pub u64 : ℕ
u64 = 2 ^ 64

abbrev pub null_length_indicator : ℕ
null_length_indicator = 255

abbrev pub long_length_indicator : ℕ
long_length_indicator = 254

abbrev pub max_short_length : ℕ
max_short_length = 252

-- `Remaining()`
unfoldable pub remaining : ByteReader → ℕ
remaining r = length r.rest

unfoldable pub read_byte : Read ℕ
read_byte r = elim r.rest [ [] ↦ err truncated | b ∷ bs ↦ ok (b, reader (r.position + 1) bs) ]

unfoldable pub peek_byte : Read ℕ
peek_byte r = elim r.rest [ [] ↦ err truncated | b ∷ bs ↦ ok (b, r) ]

unfoldable pub read_raw : ℕ → Read (List ℕ)
read_raw count r =
    if ltb (remaining r) count
    then err truncated
    else ok (take count r.rest, reader (r.position + count) (drop count r.rest))

unfoldable pub skip : ℕ → Read (Unit {0})
skip count = do _ ← read_raw count; pure tt

-- `ReadRaw(2)` and `ReadRaw(4)` return that many bytes; the other cases do not arise.
unfoldable pub be16 : List ℕ → ℕ
be16 (a ∷ b ∷ _) = a * 256 + b
be16 _ = 0

unfoldable pub le16 : List ℕ → ℕ
le16 (a ∷ b ∷ _) = b * 256 + a
le16 _ = 0

unfoldable pub be32 : List ℕ → ℕ
be32 (a ∷ b ∷ c ∷ d ∷ _) = a * 256 ^ 3 + b * 256 ^ 2 + c * 256 + d
be32 _ = 0

unfoldable pub read_uint16_be : Read ℕ
read_uint16_be = do bytes ← read_raw 2; pure (be16 bytes)

unfoldable pub read_uint16_le : Read ℕ
read_uint16_le = do bytes ← read_raw 2; pure (le16 bytes)

unfoldable pub read_uint32_be : Read ℕ
read_uint32_be = do bytes ← read_raw 4; pure (be32 bytes)

-- The loop of `ReadUniversal`, with the rounds left: `result = (result << 8) | ReadByte()`.
unfoldable pub read_digits : ℕ → ℕ → Read ℕ
read_digits zero result = pure result
read_digits (suc left) result = do byte ← read_byte; read_digits left ((result * 256 + byte) % u64)

-- The sign bit is set when the length is 128 or more.
unfoldable pub read_universal : ℕ → Read ℕ
read_universal maximum_bytes = do
  length ← read_byte
  throw_if (leb 128 length) malformed
  throw_if (ltb maximum_bytes length) malformed
  read_digits length 0

unfoldable pub read_ub2 : Read ℕ
read_ub2 = do value ← read_universal 2; pure (value % 2 ^ 16)

unfoldable pub read_ub4 : Read ℕ
read_ub4 = do value ← read_universal 4; pure (value % 2 ^ 32)

unfoldable pub read_ub8 : Read ℕ
read_ub8 = read_universal 8

-- `result` when it is not empty: the decoder never yields a value that is present and empty.
abbrev pub nonempty : List ℕ → Option (List ℕ)
nonempty [] = none
nonempty (b ∷ bs) = some (b ∷ bs)

-- The chunk loop of `ReadLengthPrefixed`. Each round reads at least the length byte of a chunk.
unfoldable pub read_chunks : ℕ → ℕ → List ℕ → Read (Option (List ℕ))
read_chunks zero maximum_size result r = stuck
read_chunks (suc fuel) maximum_size result r =
    (do
      chunk_size ← read_ub4
      (if chunk_size == 0 then pure (nonempty result) else do
        throw_if (ltb (maximum_size - length result) chunk_size) limit_exceeded
        chunk ← read_raw chunk_size
        read_chunks fuel maximum_size (result ++ chunk)))
      r

unfoldable pub read_length_prefixed : ℕ → Read (Option (List ℕ))
read_length_prefixed maximum_size = do
  first ← read_byte
  (if first == 0 || first == null_length_indicator
      then pure none
      else if first == long_length_indicator
      then (λ r. read_chunks (remaining r + 1) maximum_size [] r)
      else do
        throw_if (ltb maximum_size first) limit_exceeded
        value ← read_raw first
        pure (some value))

-- `while (result.size() <= maximum_size)`, with the rounds left.
unfoldable pub read_text : ℕ → List ℕ → Read (List ℕ)
read_text zero result = throw limit_exceeded
read_text (suc left) result = do
  byte ← read_byte
  (let more = read_text left (result ++ byte ∷ []) in if byte == 0 then pure result else more)

unfoldable pub read_null_terminated : ℕ → Read (List ℕ)
read_null_terminated maximum_size = read_text (maximum_size + 1) []
