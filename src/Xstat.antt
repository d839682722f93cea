-- ===== src/Xstat.antt =====
-- The module under xstat/: per-node sampling of a table of counters.
pub mod World
pub mod Clock
pub mod Msr
pub mod Perf
pub mod Ipmi
pub mod Table
pub mod Node
pub mod Show
pub mod History
pub mod Control
pub mod Registry
pub mod Life
pub mod Machine
mod Tests
