-- ===== src/Tests.antt =====
-- Runs of the model on concrete inputs, beside the tests of the sources.
pub mod Limits
pub mod Framing
pub mod Authorization
pub mod PeerCache
pub mod Mission
pub mod Commands
pub mod Curp
pub mod Signing
pub mod Node
pub mod Client
pub mod Provider
pub mod Identity
pub mod Ipfs
pub mod Dynamic
pub mod Calculator
