-- ===== src/Swift.antt =====
-- The Swift package over the bridge (Sources/CoAkkaRuntime). Its objects own pointers of the Core
-- library, and call the functions of Bridge on them.
pub mod Errors
pub mod Calls
pub mod Native
pub mod Session
pub mod CallbackOwners
pub mod Startup
pub mod Lifetime
