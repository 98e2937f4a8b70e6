-- ===== src/Shared.antt =====
-- The exercises with two processes on shared memory: one that writes and one that reads by turns of
-- semaphores, and two that count.
pub mod Semaphores
pub mod Counters
