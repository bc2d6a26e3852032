-- ===== src/Task.antt =====
-- src/task: signals, processes and the scheduler.
pub mod Signal
pub mod Process
pub mod Scheduler
