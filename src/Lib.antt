-- ===== src/Lib.antt =====
-- Verification of CloudAssitant, the servers of a remote control program: a library for sockets
-- and buffers (Net), a server for clipboards and files (Transfer), an RTMP server (RtmpServer), a
-- signalling server (SigServer), and a login server with its load balancer.
--
-- Parts and files:
-- - Prelude: names of the libraries, Boolean tests, lists and bytes that all parts share. Memory is a
--   list of bytes, and `none` of the reading functions is an access outside it.
-- - Net: Net/Bytes has the byte order functions of Net/BufferReader.cpp and Net/BufferWriter.cpp;
--   Net/BufferReader has `BufferReader`, the vector with its two indices, and Net/BufferReader/Stream
--   reads it as the stream of unread bytes; Net/BufferWriter has `BufferWriter`, and
--   Net/BufferWriter/Wire reads its queue as the stream of pending bytes. What `recv` and `send`
--   answer is a parameter. Net/Channel has `Channel` and the channels of the epoll scheduler
--   (Net/Channel.h, Net/EpollTaskScheduler.cpp), Net/TcpConnection has `TcpConnection` over the two
--   buffers (Net/TcpConnection.cpp), and Net/Timer the `TimerQueue` of Net/Timer.cpp. Net/EventLoop
--   has `EventLoop` with its schedulers (Net/EventLoop.cpp, Net/TaskScheduler.cpp), Net/TcpSocket and
--   Net/Acceptor have `SocketUtil`, `TcpSocket` and `Acceptor` (Net/TcpSocket.cpp, Net/Acceptor.cpp)
--   over system calls that are a parameter, and Net/TcpServer has `TcpServer` (Net/TcpServer.cpp): the
--   map of connections, and when a connection is created, closed and destroyed.
-- - Transfer: Transfer/Codec has `TransferCodec` (Transfer/TransferCodec.cpp); Transfer/Checksum and
--   Transfer/Receiver have `FileReceiver` (Transfer/FileReceiver.cpp), with std::filesystem and the
--   file streams as the parameter of Transfer/Receiver/Files; Transfer/Connection has
--   `TransferConnection` and `ClipboardService` (Transfer/TransferConnection.cpp,
--   Transfer/ClipboardService.cpp), which take frames from a `BufferReader` and drive the receiver.
-- - Rtmp: Rtmp/Message and Rtmp/Chunk have `RtmpMessage` and `RtmpChunk` (RtmpServer/RtmpMessage.h,
--   RtmpServer/RtmpChunk.cpp), Rtmp/Chunk/Parse what a call of `Parse` does and Rtmp/Chunk/Create what
--   `CreateChunk` writes; Rtmp/Chunk/Headers, Steps, Chunked, Bodies and RoundTrip lead to the round
--   trip of the two. Rtmp/Handshake has `RtmpHandshake` (RtmpServer/RtmpHandshake.cpp), with the random
--   device as a parameter. Rtmp/Amf has `AmfDecoder` and `AmfEncoder` (RtmpServer/Amf.cpp); a `double`
--   is its eight bytes. The server itself is one state of all connections and sessions, which are
--   numbers in place of pointers (Rtmp/World), and every method is an action on it that may be
--   undefined: Rtmp/Sink has what a connection sends (the second half of
--   RtmpServer/RtmpConnection.cpp), Rtmp/Session has `RtmpSession` (RtmpServer/RtmpSession.cpp),
--   Rtmp/Server has `RtmpServer` and the settings of `Rtmp` (RtmpServer/RtmpServer.cpp,
--   RtmpServer/Rtmp.h), Rtmp/Url `ParseRtmpUrl` with what `sscanf` does for its formats
--   (RtmpServer/Rtmp.h), and Rtmp/Connection with Play, Media and Read has the commands, the media and
--   `OnRead`. A session lives as long as the server keeps it in its map.
-- - Sig: Sig/Define, Sig/Manager and Sig/Connection have SigServer/Define.h,
--   SigServer/ConnectionManager.cpp and SigServer/SigConnection.cpp. A connection is a number in place
--   of a pointer, and all connections, the directory and the packets sent are one state, so that what
--   a handler does to the other end is seen. Sig/Wire has the bytes of the packets that are values
--   elsewhere, and of those that clients build.
-- - Login: Login has LoginServer/Define.h, Login/Orm the statements of LoginServer/ORMManager.cpp, with
--   the MySQL client and the C library as a parameter, and Login/Connection has `LoginConnection`
--   (LoginServer/LoginConnection.cpp). What a connection has is the database and the replies sent.
--   Login/Packets has the bytes of the packets of LoginServer/Define.h as their senders build them.
--   Login/Client has `TcpClient` and the constructor of `LoginServer` (LoginServer/TcpClient.cpp,
--   LoginServer/LoginServer.cpp), which report the load of the machine to the load balancer.
-- - Load: Load has LoadBanlanceServer/LoadDefine.h, Load/Server `LoadBanlanceServer` and
--   Load/Connection `LoadBanlanceConnection` (LoadBanlanceServer/LoadBanlanceServer.cpp,
--   LoadBanlanceServer/LoadBanlanceConnection.cpp). The server keeps pointers into the receive buffers
--   of its connections, so a pointer is the connection, the index and the size of its vector, and the
--   buffers of all connections are in the state. `std::sort` is a parameter (Load/Sort).
-- - The modules called Tests run the definitions on small inputs.
--
-- Fuel: the loop of `on_read` (Transfer/Connection) has one round more than there are unread bytes,
-- and that of `checksum_file` one more than the file has bytes, and both are shown to end. The loop of
-- `create_chunk` has one round more than the payload has bytes, `decode_loop` and
-- `decode_object_loop` one more than the bytes they are given, and `decode` counts the nesting of
-- objects; Rtmp/Amf/Decoder/Ends shows that these are enough.
-- The `on_read` of Rtmp/Connection/Read gives `handle_chunk` one round more than there are unread
-- bytes, and the loop of Net/Timer has one more than there are events, which is shown to be enough.
-- The loop of `send` in Login/Client has one round more than there are bytes, which Login/Client/Wire
-- shows to be enough for a socket that takes a byte each time.
-- The `on_read` of Sig/Connection has no bound in the source, and its number of rounds is an argument.
--
-- Memory that C++ leaves indeterminate, such as a payload that was just allocated, is zero here.
-- Locks are held during a whole operation, which is one step; but `try_lock` of `HandleWrite` may
-- fail, and other connections may use the scheduler in between (Net/TcpConnection).
--
-- Not modelled: the threads of the event loop, whose steps are taken one after another (the callback
-- for new connections is also cut in two, for a step of another thread in between), `epoll_wait`,
-- the MySQL client and the system calls, which are parameters or nothing at all here; and the
-- programs' `main` with the servers that only create connections.
pub mod Prelude
pub mod Net
pub mod Transfer
pub mod Rtmp
pub mod Sig
pub mod Login
pub mod Load
