-- ===== src/Pager.antt =====
-- internal/storage/pager: pages of 4096 bytes in one file, with a write-ahead log.
-- `crc32` stands for hash/crc32's ChecksumIEEE, which the modules below take as a parameter.
pub mod Page
pub mod Header
pub mod Disk
pub mod Wal
pub mod FilePager
pub mod Runs
use plomvix.Base.{ℕ, ◌-◌, ◌≤◌, List}

abbrev pub page_size : ℕ
page_size = 4096

-- DataPageBodySize
abbrev pub body_size : ℕ
body_size = page_size - 12

abbrev pub magic_number : ℕ
magic_number = 0x506C6D76

abbrev pub format_version : ℕ
format_version = 2

-- freeListSentinel and walEOTPageID
abbrev pub sentinel : ℕ
sentinel = 0xFFFF_FFFF_FFFF_FFFF

-- The sentinel errors, the error of a context that is done, io.EOF, and a failed read of the main file.
pub data Error : Type 0 where
  not_open already_open closed not_a_pager_file unsupported_version page_size_mismatch : Error
  cancelled header_corrupt page_corrupt invalid_page_id body_size_mismatch already_free : Error
  free_list_corrupt tx_already_active no_active_tx tx_unsupported_op wal_corrupt eof io_read : Error

-- ChecksumIEEE returns a uint32.
pub record IsCrc32 (crc32 : List ℕ → ℕ) : Type 0 where
  pub fits : (bs : List ℕ) → crc32 bs ≤ 0xFFFF_FFFF
