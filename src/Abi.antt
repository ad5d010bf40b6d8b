-- ===== src/Abi.antt =====
-- The memory layout of the C records that cross the boundary to the Core library: the sizes that
-- the bridge writes into `struct_size` and clears by memset, and that its static assertions pin.
-- The data model is the one of all five platforms of the package: 8-byte pointers and size_t.
pub mod Layout
pub mod Startup
pub mod Control
pub mod Runtime
pub mod Transport
pub mod Lanes
pub mod File
pub mod Stream
pub mod Messages
pub mod Events
pub mod EventAdmin
pub mod Auth
pub mod Observe
mod Asserts
