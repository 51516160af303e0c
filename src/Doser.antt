-- ===== src/Doser.antt =====
-- aquaOneDoser: the pump outputs, the pump settings and the scheduler of doses.
pub mod Driver
pub mod Pumps
pub mod Scheduler
pub mod Upload
mod Examples
