-- ===== src/Proc.antt =====
-- The process subsystem of the modified xv6 kernel (xv6 modified/proc.c and proc.h).
pub mod Types
pub mod Queue
pub mod Lifecycle
pub mod Accounting
pub mod Sched
pub mod Timer
