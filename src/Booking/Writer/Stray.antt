-- ===== src/Booking/Writer/Stray.antt =====
-- Where a turn of the write server leaves the arrays and the file.
use system_programming_hw.Booking.Writer.Inv.{Inv}
