-- ===== src/Client.antt =====
-- The test client requester/spdm_simple_client.cpp.
pub mod Io
pub mod Context
pub mod Protocol
pub mod Program
mod Examples
