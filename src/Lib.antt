-- ===== src/Lib.antt =====
-- Verification of parts of an Apache Iceberg library in C++: the filter over statistics that
-- decides which row groups are read, the functions of its row filter on dates, timestamps and
-- integers, the vector of selected rows, the rows that positional delete files and deletion
-- vectors remove from it, the planning of scans, the segments of data files, the pool of threads,
-- the texts of UUIDs and URLs, and the names of types.
--
-- The parts and how they interact. A filter is an expression (iceberg/filter/representation).
-- Before a row group is read, StatsFilter (iceberg/filter/stats_filter) evaluates the expression
-- over the minima and maxima of the columns, which an IStatsGetter returns, and answers whether
-- no, some or all rows match. The rows of a batch that is read are filtered by Gandiva with the
-- functions of iceberg/filter/row_filter/extend_gandiva, and deleted rows leave the
-- SelectionVector of the batch (iceberg/common/selection_vector.h): PositionalDeleteApplier asks a
-- PositionalDeleteStream (iceberg/positional_delete), which merges the delete files of a
-- partition, for the rows of each batch; DeletionVectorApplier asks a DeletionVector
-- (iceberg/deletion_vector.cpp).
--
-- The files:
-- - Common: what the modules share: tests on numbers, lists, results, integers, machine integers.
-- - Filter/Value, Filter/Function, Filter/Node: value.h, function.h and node.h of
--   iceberg/filter/representation. A shared pointer to a node is the node. Filter/Order has the
--   comparators on the physical types, with their laws in Filter/Order/Laws.
-- - Filter/Stats: stats.h of iceberg/filter/stats_filter, a variant with its tag as one constructor.
-- - Filter/Registry: the evaluators of registry.cpp (EvaluateMonotoneComparison and those built on
--   it, EvaluateBinary, EvaluateUnary, EvaluateIsNull and the casts). Filter/Registry/Table: its
--   tables, CastToSameTypeForComparison and Registry::Evaluate. Filter/Registry/Bounds: what the
--   computed ranges hold.
-- - Filter/Visitor: StatsFilterVisitor, BoolStatsAggregator and StatsFilter::ApplyFilter of
--   stats_filter.cpp. An arrow::Result is a Result whose error has no text.
-- - Filter/Rows: an independent description of the value of an expression on one row, with the
--   logic of three values. Functions that the registry does not evaluate are a parameter.
-- - Filter/Soundness and the files below it: that statistics describe values, for the casts, the
--   calls, the connectives, the branches, the arrays and whole expressions. Filter/Verdict: what
--   follows for the verdict.
-- - Selection: SelectionVector, with the loops that move elements of the vector they read.
--   Selection/InPlace: the loops as passes over lists. Selection/Filtered: selection by membership.
-- - Temporal/Division, Compare, Extract, Truncate and Week: temporal_ops.cpp of
--   iceberg/filter/row_filter/extend_gandiva. Temporal/TimePoint: EpochTimePointMicros of
--   epoch_time_point.h and .cpp. Temporal/Calendar, Floor, Dates and Weeks: their theorems.
-- - Arithmetic: arithmetic_ops.h in the same directory, at the signed integers of w + 1 bits, with
--   its theorem in Arithmetic/Bounds.
-- - Types: type.h and type.cpp of iceberg, but for the conversion of types of Arrow. An exception of a
--   constructor is `none`. Types/Names: the names of the types.
-- - PositionalDelete/Position, Reader and Queue: positional_delete.h and .cpp of
--   iceberg/positional_delete. A file is the list of its row groups, each with its statistics and its
--   records. PositionalDelete/Valid: files that keep the rules of Iceberg, and what is pending in a
--   reader. Top, Steps, States, Placed, Merge and Rounds: what a round of the loop does. Loop, Stream
--   and Files: the loop and its end, a sequence of queries, and the files behind it.
-- - Streams/PositionalApplier: positional_delete_applier.h of iceberg/streams/iceberg, where a map of
--   partitions and layers is a list of pairs. Streams/PositionalApplied and PositionalReads: what
--   ReadNext leaves of a batch.
-- - DeletionVector: GetElems and Cardinality of deletion_vector.cpp; the functions of CRoaring and zlib
--   that the code calls are the parameter BitmapLibrary. DeletionVector/Elements: the elements of a
--   range. DeletionVector/Blob: the constructor that reads a blob, and GetBlob.
--   DeletionVector/RoundTrip: reading what is written. Streams/VectorApplier:
--   deletion_vector_applier.h of iceberg/streams/iceberg.
-- - Segments: ValidateSegments and UniteSegments of iceberg/experimental_representations.cpp, with the
--   bytes that segments cover in Segments/Union.
-- - Scan: scan planning in iceberg/tea_scan.cpp. Scan/Builder is ScanMetadataBuilder: AddEntry and
--   what it stores in the maps of partitions and layers, with Entries, Keys and Numbers on what the
--   layers then hold. Scan/Optimizer and its child Buckets are PositonalDeleteOptimizer, which
--   splits a partition into buckets: Sweep, Bounds, Ranges, Paths and Placement are about the sweep
--   over the paths, Redistribution, Correctness, Equivalence and Whole about the buckets.
--   Scan/PartitionKeys is SerializePartitionTuple, whose text is an argument of the builder.
--   Scan/Vectors is ApplyGlobalEqualityDeletes, ResolveDeletionVectors and GetResult.
--   Scan/EntryStreams is EntryStream and AllEntriesStream, which give the entries of the manifests,
--   with Manifest and Drained on what they give.
--   Scan/Planner is ReferencedDataFileAwareScanPlanner and GetScanMetadata, with Collected, Placed,
--   Layered, Shapes, Plan and Annotated on the partitions that it makes, Distinct and Errors on those
--   that it refuses, Noted, Known, Entries and Stored on what it keeps of the entries, and Deletes
--   and Whole on GetScanMetadata from the entries to the plan.
--   Scan/Dangling is RemoveDanglingDeletes, MapToVec and GetPartitions, with Prune, Useful,
--   Origins, Plan and Planning. Scan/Timeline reads a partition as one sequence of data files and
--   deletes, in which a delete applies to data files before it. A std::map is a list with
--   ascending keys (Common/OrderedMap), and std::sort is a sort by insertion.
-- - ThreadPool: the state of iceberg/common/threadpool.h and what Submit, Stop and GetTask do to it
--   under its mutex. ThreadPool/Steps: the steps of threads and users, in any order.
--   ThreadPool/Counts, Sound, Invariant and Progress: what holds of a pool at any time.
-- - Uuid: Parse and ToString of iceberg/uuid.cpp, with their round trip in Uuid/Text.
-- - Url: SplitUrl of iceberg/common/fs/url.cpp. Url/Parts: URLs that are put together from their parts.
--   Url/Fuel: the loop over the parameters ends.
-- - Examples, in the parts: tests, and the theorems at concrete inputs.
--
-- Bounds. All functions recurse on their data and none takes fuel, but for the loops of Selection,
-- which count the rounds left in the vector, and merge_loop of PositionalDelete, whose fuel is the
-- number of records and row groups left, and one: each round reads one of them, and a loop that
-- ran out of it would have the fault `out_of_fuel`; and params_loop of Url, whose fuel is the
-- length of the text and one: each round removes a character, and running out of it is `none`;
-- decimal_loop of Scan/PartitionKeys, whose fuel is the number and one: each round divides it by
-- ten; and read_entries of Scan/EntryStreams, whose fuel is the number of entries that are left,
-- and one: each round reads an entry. Split offsets of data files are taken to ascend, and
-- sequence numbers do not overflow. Positions of rows are numbers without a bound. Products of
-- days and microseconds, sums with a shift, rounded times and times of day are wrapped around to
-- 64 bits (`int64` of Common/Int/Wrap), counts of days to 32 (`int32`), and `abs` of the least
-- integer is that integer (`abs32`, `abs64`); the other numbers of the Extract and DateTrunc
-- functions, years, months and parts of a day, are integers that stay in their types. The
-- conversions of statistics keep the code's guards. A sum of an offset and a length that is not
-- below 2 ^ 63 is undefined; the differences of positions in deletion vectors wrap around to 64
-- bits. A float is NaN or its place in the order of the doubles, since statistics only compare
-- floats.
--
-- Not modelled: the log; the text of errors; the Ensure checks of the constructors of nodes;
-- floating-point instances of
-- arithmetic_ops.h; the date library behind EpochTimePointMicros, which is the parameter
-- DateLibrary; Gandiva, Arrow and Parquet; nulls in delete files; the order of equal readers in a
-- std::priority_queue, which is the order of the list; what a task of the pool does, and its
-- future; of the scan planning the reading of manifests from files (their entries are an argument), the
-- selection of manifests by a filter, the matching of partition specifications
-- (its answers are an argument), the logger and the locks;
-- the readers of equality deletes, the other streams, the metadata and the catalogs.
pub mod Common
pub mod Filter
pub mod Selection
pub mod Temporal
pub mod Arithmetic
pub mod Types
pub mod PositionalDelete
pub mod DeletionVector
pub mod Streams
pub mod Segments
pub mod Scan
pub mod ThreadPool
pub mod Uuid
pub mod Url
