-- ===== src/Threads.antt =====
-- multy/src/Threads: the circular buffer between the two threads, and its access objects.
pub mod Buffer
pub mod Pipeline
pub mod Objects
