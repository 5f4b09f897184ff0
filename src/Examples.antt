-- ===== src/Examples.antt =====
-- Concrete states on which the theorems are tried.
pub mod Buffers
pub mod Timers
pub mod Pools
pub mod Events
pub mod Tasks
pub mod Transfers
pub mod Services
pub mod Messages
pub mod Logs
pub mod Hooks
pub mod Requests
pub mod Settings
pub mod Fibers
pub mod Addresses
