-- ===== src/Movies.antt =====
-- HW4: movies that match a keyword, sorted by score with several threads or processes.
pub mod Score
pub mod Select
pub mod Merge
pub mod Request
pub mod Processes
pub mod Input
pub mod Server
mod Tests
