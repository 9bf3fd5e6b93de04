-- ===== src/Heap/Vacuum/Visible.antt =====
-- That Vacuum leaves what later readers see of a row.
use plomvix.Base.{Bool}
use plomvix.Heap
use plomvix.Heap.{flag_tombstone}
