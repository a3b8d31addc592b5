-- ===== src/Csa.antt =====
-- tarea2/src/csa.c: a corrector of saturated audio.
pub mod Samples
pub mod Load
pub mod Smooth
pub mod Report
pub mod Program
mod Tests
mod Examples
