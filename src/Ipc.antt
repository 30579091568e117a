-- ===== src/Ipc.antt =====
-- MLCommon's inter-process communication over Unix sockets.
pub mod Uri
pub mod Sockets
mod SocketTests
pub mod Transmitter
pub mod Epoll
pub mod Receiver
pub mod Connector
