-- ===== src/Ttc.antt =====
-- The TTC layer over the packets: the channel of src/ttc_channel.cpp and the small messages that it
-- sends and reads itself.
pub mod Piggyback
pub mod Report
pub mod Acknowledgement
pub mod ErrorInfo
pub mod ErrorText
pub mod ErrorBounds
pub mod ReportBounds
pub mod Channel
pub mod Outbound
pub mod Receiving
pub mod Requests
pub mod Queues
pub mod CloseCursors
pub mod ReceiveEnds
pub mod Cancelling
pub mod Uses
mod Tests
