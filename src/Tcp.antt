-- ===== src/Tcp.antt =====
-- The TCP server, src/network/TcpServer.cpp, and the echo server on top of it.
pub mod Api
pub mod Connection
pub mod Server
pub mod Stream
pub mod Drain
pub mod Write
pub mod Echo
pub mod Session
pub mod Close
pub mod Slots
pub mod Tests
