-- ===== src/Micstat.antt =====
-- micstat/micstat.c: the module for the Xeon Phi coprocessor. It reads most of its counters from the
-- system management controller over an I2C bus and from registers of the SBOX.
pub mod Smc
pub mod Fields
pub mod Temps
pub mod Power
pub mod Freq
pub mod Counters
pub mod Buffer
pub mod Show
pub mod Thread
pub mod History
pub mod Device
pub mod Load
pub mod Control
mod Tests
