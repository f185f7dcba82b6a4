-- ===== src/Temporal.antt =====
-- Dates and timestamps in a row filter: temporal_ops.cpp and epoch_time_point.h of
-- iceberg/filter/row_filter/extend_gandiva. A timestamp counts microseconds from the epoch and a
-- date counts days.
pub mod Division
pub mod TimePoint
pub mod Week
pub mod Compare
pub mod Extract
pub mod Truncate
pub mod Calendar
pub mod Floor
pub mod Dates
pub mod Weeks
mod Examples
