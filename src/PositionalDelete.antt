-- ===== src/PositionalDelete.antt =====
-- The rows that positional delete files remove: iceberg/positional_delete/positional_delete.h and
-- .cpp. A file of deletes is the list of its row groups; a position of a row is a number.
pub mod Position
pub mod Reader
pub mod Queue
pub mod Valid
pub mod Steps
pub mod Top
pub mod Rows
pub mod States
pub mod Merge
pub mod Placed
pub mod Rounds
pub mod Loop
pub mod Stream
pub mod Files
pub mod Samples
mod Examples
