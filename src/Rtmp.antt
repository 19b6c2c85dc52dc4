-- ===== src/Rtmp.antt =====
-- The directory RtmpServer: the chunk stream of an RTMP connection.
pub mod Message
pub mod Url
pub mod Chunk
pub mod Handshake
pub mod Amf
pub mod World
pub mod Sink
pub mod Session
pub mod Server
pub mod Connection
mod Tests
