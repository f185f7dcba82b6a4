-- ===== src/Streams.antt =====
-- The streams that take deleted rows out of batches: iceberg/streams/iceberg/. The selection vector of
-- a batch is the one of Selection, the deletes are those of PositionalDelete.
pub mod PositionalApplier
pub mod PositionalApplied
pub mod PositionalReads
pub mod VectorApplier
mod Examples
