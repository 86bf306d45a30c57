-- ===== src/Tests.antt =====
-- Runs of the program's functions on small inputs, and the theorems at concrete inputs.
pub mod Setup
mod Cache
mod Purge
mod Server
mod Stream
mod Reader
mod Config
mod Dashboard
mod Web
mod Times
mod Registers
pub mod Opening
mod Program
mod Page
mod Accept
