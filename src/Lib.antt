-- ===== src/Lib.antt =====
-- Plomvix, a database server: the storage layers under its SQL engine, and the parts that run it.
--
-- Pager (internal/storage/pager): pages of 4096 bytes in one file with a write-ahead log. Pager/Page,
-- Pager/Header and Pager/Wal are page.go, header.go and wal.go with the parsing of a log;
-- Pager/Wal/Replay is replayWALInternal; Pager/Disk is the main file as a list of page images;
-- Pager/FilePager is pager.go, a record of filePager's fields with the two files and one function per
-- operation, which returns the state after it with a value or an error; Pager/FilePager/Open is Open;
-- Pager/FilePager/Commit and Pager/FilePager/Logged have the proofs on CommitTx and its checkpoint,
-- Pager/Wal/Crash that on a crash inside it.
-- The checksum, hash/crc32's ChecksumIEEE, is a parameter of which only the width is known. File reads
-- and writes succeed but for a read past the end, page ids are such that their offset fits an int64,
-- the file is whole pages, and the mutex is left out: operations come one after the other. Go's maps
-- are association lists. The loop over a log has as many rounds as there are bytes, since a record
-- takes 24 bytes at least; the walk of the free list has one round per page and two more, since a page
-- that is met twice ends it.
--
-- Key (internal/engine/sql/key): the key encodings. Key.antt has the scalar keys and the checks they
-- share, Key/Composite the sort and storage composites, Key/Row the keys of table rows and PrefixEnd;
-- Key/Scalar, Key/Order, Key/Composite/Sorted, Key/Composite/Storage, Key/Row/RoundTrip and
-- Key/Row/Prefix have the proofs. ParseKey is not modelled.
--
-- Kv (internal/engine/sql/kv): the ordered store, a B+ tree whose nodes are the pager's pages. Kv/Node
-- is node.go, the bodies of the pages; Kv/Pages is the pager as the store calls it, functions from a
-- pager to a pager and a result; Kv/Search is btree.go's Open, Close and Get, Kv/Leaves what Set and
-- Delete make of a node's entries, Kv/Set, Kv/Delete, Kv/Scan, Kv/Check, Kv/Free and Kv/Compact the
-- operations of these names. A key is its bytes, by which alone the store orders keys. Loops down the
-- tree and along its leaves have a number of rounds, and an error of its own, stuck, where they are
-- used up: one round per level, or per leaf, is enough. Kv/Free, which has no errors in the code,
-- stops without one. The loop along a value's overflow pages has
-- the limit that the code gives it. Where Go would panic the model has the error panicked, which skips
-- the rollback. Kv/Route is the way of a key through the pages to its leaf, on which Kv/Lookup builds;
-- Kv/Range, Kv/Chain, Kv/Queries and the children of Kv/Node and Kv/Leaves have the other proofs. The
-- mutex is left out.
--
-- Heap (internal/engine/sql/heap): Heap is the codec of row values in encode.go, with the bitmask of
-- the nil values as a list of bits; Heap/Rows is the iterator of a scan and Heap/Vacuum what Vacuum
-- does with the versions of one row, which sort.Slice has put in order; Heap/Table is Insert,
-- Update, Delete and Get over a record of the store's Scan and Set, with sort.Slice by descending
-- version as a parameter; Heap/Bitmask, Heap/RoundTrip,
-- Heap/Vacuum/Visible and Heap/Table/Conflict have proofs. OpenTable,
-- a table's Scan and the grouping in Vacuum are not modelled.
--
-- Tx (internal/engine/sql/tx): the two counters of the timestamps. Lifecycle (internal/lifecycle): the
-- manager of the components, with the calls that it makes of them as a trace.
--
-- Limit (internal/engine/sql/planner/limit.go): LimitNode over a child operator that is the rows it
-- gives.
--
-- Base: shared notation, lists over the native numbers, results, signed integers, and the fixed-width
-- integers of encoding/binary with bytes.Compare, which are written out from their documentation.
--
-- Not modelled: the rest of the planner, the catalog and the engines for logs and
-- metrics. The server, the logger, the runtime and the wrapper of the SQL parser are input and output
-- around the standard library or third-party code.
pub mod Base
pub mod Heap
pub mod Key
pub mod Kv
pub mod Lifecycle
pub mod Limit
pub mod Pager
pub mod Tx
