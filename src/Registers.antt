-- ===== src/Registers.antt =====
-- registers.go, its first part: the names of the registers.
pub mod Defs
pub mod Inverter
pub mod Storage
pub mod Control
pub mod Init
pub mod Names
