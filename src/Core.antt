-- ===== src/Core.antt =====
-- The boundary to the Core library: the functions that the bridge calls, the records that it passes
-- them, and the symbols that it finds them by.
pub mod Slot
pub mod Records
pub mod Call
