-- ===== src/Tcp.antt =====
-- requester/tcp_helper.hpp and requester/libspdm_tcp_transport.cpp.
pub mod Frame
pub mod Socket
pub mod Pipe
pub mod Io
pub mod Device
pub mod Connect
pub mod Setup
mod Examples
