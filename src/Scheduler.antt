-- ===== src/Scheduler.antt =====
-- scheduler.c: the task table, the choice of the next task, and the operations on both. The modules
-- below `Proofs` prove what they do.
pub mod State
pub mod Pick
pub mod Ops
pub mod Register
