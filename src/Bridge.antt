-- ===== src/Bridge.antt =====
-- The bridge functions of coakka_runtime_bridge.c over an open library.
pub mod Access
pub mod Spec
pub mod Safety
pub mod Session
pub mod Lifecycle
pub mod Inspect
pub mod Client
pub mod Feature
pub mod File
pub mod Stream
pub mod Clients
pub mod Forwarded
pub mod Prepared
