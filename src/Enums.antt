-- ===== src/Enums.antt =====
-- The enumerations of the C headers: each is a data type with the enumerators and a function that
-- gives their values.
pub mod Transport
pub mod Runtime
pub mod Client
pub mod Lanes
pub mod Messages
pub mod Events
pub mod Auth
pub mod Bridge
