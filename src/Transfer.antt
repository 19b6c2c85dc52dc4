-- ===== src/Transfer.antt =====
-- The directory Transfer: framed messages, the file receiver and the connection that drives it.
pub mod Codec
pub mod Checksum
pub mod Receiver
pub mod Connection
mod Tests
