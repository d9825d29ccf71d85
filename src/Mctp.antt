-- ===== src/Mctp.antt =====
-- The in-kernel MCTP transport: framing (requester/mctp_helper.hpp) and the device callbacks
-- (requester/libspdm_mctp_transport.cpp).
pub mod Frame
pub mod Socket
pub mod Io
pub mod Device
pub mod Connect
pub mod Setup
mod Examples
