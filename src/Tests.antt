-- ===== src/Tests.antt =====
-- Tests: concrete instances of the interfaces, and the theorems at concrete inputs.
pub mod Instances
pub mod Libraries
pub mod Enclave
mod Services
mod Node
mod Edge
mod ReceiptRun
mod Startup
mod Keys
mod Serving
mod Runs
mod Measuring
