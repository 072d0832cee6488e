-- ===== src/Workers/Keeps.antt =====
-- Every operation of a pool keeps its invariant (src/emulation_workers.cpp).
pub mod Drain
pub mod Submit
pub mod Deliver
pub mod Threads
