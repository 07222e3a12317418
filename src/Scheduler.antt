-- ===== src/Scheduler.antt =====
-- src/thread: the schedulers and the threads that they hold.
pub mod Thread
pub mod Eevdf
pub mod RoundRobin
pub mod Global
pub mod Created
pub mod Initial
pub mod Starting
pub mod Handover
