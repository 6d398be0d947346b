-- ===== src/Tns.antt =====
-- TNS framing: src/tns_packet.cpp, src/data_assembler.cpp and src/byte_stream.cpp. A TTC message is cut
-- into DATA packets, the packets go over a byte stream, and the receiver joins their payloads again.
pub mod Packet
pub mod Assembler
pub mod Header
pub mod Segments
pub mod Cut
pub mod Stream
pub mod Delivery
pub mod Exchange
mod Tests
