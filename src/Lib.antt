-- ===== src/Lib.antt =====
-- The formats and the pure core of the storage engine, modelled from the crate's sources under src/.
--
-- Parts and files. The paths are those of the repository's root.
--  Base      numbers, lists, bits and byte strings that the parts share
--  Coding    src/coding/coding.rs: fixed and variable-width integers, length-prefixed byte strings
--  Status    src/status/status.rs: the error value; Result: `Result<T>`, the `?` operator, panics
--  Crc32c    src/crc32c/crc32c.rs: the checksum interface, the portable tables, the masking
--  Comparator  src/comparator/comparator.rs: the trait and the bytewise order
--  Format    src/format/dbformat.rs and internal_key.rs: internal keys, their order, lookup keys
--  Log       src/log/log.rs and log_record_header.rs: LogWriter and LogReader; Stream: the writer over a
--            file; Sequential: the block-wise reader over a file
--  WriteBatch  src/write_batch/: the batch of mutations, its records, handlers
--  VersionSet  src/version_set/version_edit.rs and file_meta_data.rs: edits of the manifest;
--            src/version_set/version_set.rs: Version, its files and searches; Builder, which applies
--            edits; Compaction and Picking, the inputs of a compaction; Lookup, the read of a key;
--            Seeks, the allowances that reads use up
--  Hash      src/hash/hash.rs; Filter  src/filter/filter.rs: the Bloom filter
--  FilterBlock  src/filter_block/filter_block.rs: the filters of a table's data blocks
--  Block     src/block/: handles, trailers, entries; Builder: the block and its builder; KeyBuf and
--            Iter: the iterator over a block, `walk` its client's loop and `built` the builder's
--  MergingIter  src/merging_iter/merging_iter.rs: the iterator that merges others, which implement the
--            trait of src/db_iter/db_iterator.rs
--  Cache     src/cache/cache.rs: a shard with its eviction; Sharded: the cache of sixteen shards
--  Table     src/table/table_footer.rs: the footer
-- A batch is written to the log as one record, and replayed from it through `iterate`; an edit is
-- written to the manifest, which is a log too, and the builder makes a version of it. Internal keys
-- order the tables; the filter sees their user keys. The version's searches find the files of a key by
-- that order, and the lookup asks them through its argument `lookup`, which reads a table. So the codecs
-- meet in the byte strings of Base, and Log takes the checksum as a parameter (`Checksum` in Crc32c),
-- which the portable implementation fills.
--
-- Conventions. A `&mut` argument is an argument and a result. A cursor `&mut &[u8]` is an input with
-- the rest of it in the result. Numbers are natural numbers; where a u8, u16, u32 or u64 can wrap, the
-- definition writes the remainder, as it does for a usize that is not a length of bytes in memory: the
-- charges of the cache, and the size of a filter. Where the source can panic, the definition returns
-- `none` or `panicked`. Assertions and overflow checks of debug builds are not modelled.
--
-- Bounds. Loops are recursion on a count of rounds. The writer of a record takes `length + 2` rounds,
-- since each round but the first takes a byte or ends; the reader takes as many rounds as there are
-- bytes, since each fragment has a header; the varint loops count down the value, which falls in each
-- round, or the shifts of the source's `for`; the loops over records and fields take as many rounds as
-- there are bytes. Eviction drops an entry in each round, the search for a file or a restart point
-- halves a range, a scan of a block takes a byte or ends, and the scan of level 0 starts again at most
-- twice for each file, since a restart makes a file's key an end of the range. A file has no length, so
-- the block-wise reader takes its rounds as an argument.
--
-- A map is an association list with each key once, a set a list of which only membership counts. What
-- sits behind a lock is a value that an operation takes and returns, so the steps are those that the
-- locks make atomic. An i64 is kept as the number of its two's complement.
--
-- Not modelled: the hardware checksum instructions, the buffer pool of batches, the hasher of the cache's
-- maps, the compaction scores (floating-point numbers: `pick_compaction` takes their comparison as an
-- argument), the manifest's reading and writing, tables, the memtable, the two-level and the database
-- iterators, the database itself, and everything that is input and output.
pub mod Base
pub mod Coding
pub mod Status
pub mod Result
pub mod Crc32c
pub mod Comparator
pub mod Format
pub mod Log
pub mod WriteBatch
pub mod VersionSet
pub mod Hash
pub mod Filter
pub mod Block
pub mod Cache
pub mod FilterBlock
pub mod MergingIter
pub mod Table
