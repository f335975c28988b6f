-- ===== src/Booking.antt =====
-- HW1/server.c: the booking server, which is built twice from one file: as a read server
-- (READ_SERVER) and as a write server (WRITE_SERVER).
pub mod Parse
pub mod Rules
pub mod Session
pub mod Writer
pub mod Reader
pub mod Servers
mod Tests
