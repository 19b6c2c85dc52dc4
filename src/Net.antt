-- ===== src/Net.antt =====
-- The directory Net: byte order, the receive buffer and the send queue.
pub mod Bytes
pub mod BufferReader
pub mod BufferWriter
pub mod Channel
pub mod TcpConnection
pub mod Timer
pub mod EventLoop
pub mod TcpSocket
pub mod Acceptor
pub mod TcpServer
mod Tests
