-- ===== src/Kernel.antt =====
-- The kernel of Chinux: processes, the timer's scheduler, semaphores and the calls of int 79h
-- (Chinux/src/kernel.c, scheduler2.c, scheduler.c, pisix.c and the handlers of libasm.asm).
pub mod State
pub mod Process
pub mod Table
pub mod Scheduler
pub mod Blocking
pub mod Kill
pub mod Semaphore
pub mod Fifo
pub mod RoundRobin
pub mod Invariant
pub mod Samples
pub mod Tests
pub mod ContextSwitch
pub mod Protection
pub mod Recursion
