-- ===== src/Loader.antt =====
-- coakka_runtime_bridge.c, lines 181 to 358: the platform's loader, the error text, the loading of
-- the symbols, and the open and close of a runtime library.
pub mod ErrorText
pub mod Platform
pub mod Library
pub mod Symbols
pub mod Acquire
pub mod Opening
