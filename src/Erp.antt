-- ===== src/Erp.antt =====
-- tarea3/src/erp_udp.c: an emulator of delay and loss between a UDP client and a UDP server.
pub mod Config
pub mod Delay
pub mod Link
pub mod System
pub mod Start
mod Examples
mod Tests
