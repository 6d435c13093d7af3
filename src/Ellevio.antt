-- ===== src/Ellevio.antt =====
-- core/ellevio.py: the weighted hourly averages of the grid import and the month's highest peaks.
pub mod Tracker
pub mod Sorting
pub mod Hours
pub mod Peaks
pub mod Persist
mod Tests
