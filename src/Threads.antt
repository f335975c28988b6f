-- ===== src/Threads.antt =====
-- HW3: user-level threads, their scheduler and the three thread functions.
pub mod Scheduler
pub mod Bodies
pub mod System
mod Tests
