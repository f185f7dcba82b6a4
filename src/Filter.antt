-- ===== src/Filter.antt =====
-- Filter expressions and their evaluation over column statistics: iceberg/filter.
pub mod Value
pub mod Order
pub mod Function
pub mod Stats
pub mod Registry
pub mod Node
pub mod Visitor
pub mod Rows
pub mod Soundness
pub mod Verdict
mod Examples
