-- ===== src/Tournament.antt =====
-- HW2: a tournament of battles between eight players.
pub mod Battle
pub mod Tree
pub mod Player
pub mod Roster
pub mod Bracket
pub mod Relay
pub mod Pipes
mod Tests
