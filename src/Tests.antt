-- ===== src/Tests.antt =====
-- The theorems at concrete inputs, and runs of the code.
pub mod Allocator
pub mod Buffers
pub mod Streams
mod Servers
mod Pools
pub mod Clients
pub mod Messages
mod Transactions
mod Expiry
