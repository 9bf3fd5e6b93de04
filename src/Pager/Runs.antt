-- ===== src/Pager/Runs.antt =====
-- The pager's theorems at concrete inputs: files of blank pages and a checksum that sums the bytes.
use plomvix.Base.{
  true, All, inr, ℕ, ◌+◌, ◌%◌, ◌≡◌, ◌≢◌, refl, false, List, [], ◌∷◌, ◌++◌, length, none, ok, arith,
  length-replicate, drop,
}
use plomvix.Base.Lists.{replicate}
use plomvix.Base.Int.{pos}
use plomvix.Pager.{page_size, body_size, sentinel, magic_number, format_version, IsCrc32}
use plomvix.Base.Bytes.{put_be}
use plomvix.Pager.Page.{
  zeros, length-zeros, encode_data_page, decode_data_page, encode_data_page-total,
}
use plomvix.Pager.Header.{PagerHeader, encode_header, decode_header, decode-encode_header}
use plomvix.Pager.Disk.{lookup, read_body_unchecked}
use plomvix.Pager.Wal.{WalRecord, encode_eot_marker, encode_wal_record, records, parse_wal}
use plomvix.Pager.Wal.Records.{IsRecord}
use plomvix.Pager.Wal.Parse.{log_of, IsTorn, parse_wal-log_of}
use plomvix.Pager.Wal.Replay.{replay_wal}
use plomvix.Pager.Wal.Groups.{Txn, all_records}
use plomvix.Pager.Wal.Committed.{IsTxn, as_committed, replay_wal-committed}
use plomvix.Pager.Wal.Total.{IsDone, parse_wal-IsDone}
use plomvix.Pager.FilePager.{
  FilePager, is_open, read_page, write_page, rollback_tx, commit_tx, allocate_page, free_page,
}
use plomvix.Pager.FilePager.Reads.{IsInUse, IsWritten, write_page-read_page}
use plomvix.Pager.FilePager.Buffers.{puts, over}
use plomvix.Pager.FilePager.Transactions.{transaction, transaction-rollback}
use plomvix.Pager.FilePager.Commit.{transaction-commit}
use plomvix.Pager.FilePager.FreeList.{free_page-allocate_page}

-- A stand-in for the checksum: the sum of the bytes as a uint32.
abbrev sum_of : List ℕ → ℕ
sum_of [] = 0
sum_of (b ∷ bs) = b + sum_of bs

abbrev sum_crc : List ℕ → ℕ
sum_crc bs = sum_of bs % 0x1_0000_0000

sum_fits : IsCrc32 sum_crc
sum_fits = record { fits = λ bs. omega arith }

-- Four pages: two headers and two data pages.
abbrev four_pages : FilePager
four_pages = record {
  checkpoint_threshold = pos 0;
  main_file = zeros page_size ∷ zeros page_size ∷ zeros page_size ∷ zeros page_size ∷ [];
  wal_file = [];
  state = is_open;
  page_count = 4;
  free_list_head = sentinel;
  free_count = 0;
  free_set = [];
  in_txn = false;
  next_txn_id = 0;
  current_txn = 0;
  txn_buffer = [];
  wal_size = 0;
}

three-IsInUse : IsInUse four_pages 3
three-IsInUse = record {
  opened = refl;
  is_data = omega arith;
  counted = omega arith;
  not_free = refl;
  in_file = omega arith;
}

abbrev ones : List ℕ
ones = replicate body_size 1

ones_size : length ones ≡ body_size
ones_size = length-replicate body_size 1

write_page-read_page_example :
    (q : FilePager) × (write_page sum_crc none four_pages 3 ones ≡ (q, ok tt))
    × (q.in_txn ≡ false)
    × IsWritten sum_crc four_pages q 3 ones
write_page-read_page_example =
    write_page-read_page sum_crc sum_fits four_pages 3 ones three-IsInUse ones_size

abbrev two_writes : List (ℕ × List ℕ)
two_writes = (3, zeros body_size) ∷ (3, ones) ∷ []

transaction-rollback_example :
    (q : FilePager) × (transaction sum_crc two_writes (rollback_tx none) four_pages ≡ (q, ok tt))
    × (q.in_txn ≡ false)
    × (q.main_file ≡ four_pages.main_file)
    × ((j : ℕ)
        → IsInUse four_pages j
        → (read_page sum_crc none q j).1 ≡ (read_page sum_crc none four_pages j).1)
transaction-rollback_example =
    transaction-rollback sum_crc four_pages two_writes refl refl
      ((three-IsInUse, length-zeros body_size), ((three-IsInUse, ones_size), tt))

transaction-commit_example :
    (q : FilePager) × (transaction sum_crc two_writes (commit_tx sum_crc none) four_pages
      ≡ (q, ok tt))
    × (q.in_txn ≡ false)
    × ((j : ℕ)
        → IsInUse four_pages j
        → (read_page sum_crc none q j).1
          ≡ over (lookup j (puts two_writes [])) ((read_page sum_crc none four_pages j).1))
transaction-commit_example =
    transaction-commit sum_crc sum_fits four_pages two_writes refl refl
      ((three-IsInUse, length-zeros body_size), ((three-IsInUse, ones_size), tt))
      (inr (refl, omega arith))

free_page-allocate_page_example :
    (q : FilePager) × (r : FilePager) × (free_page sum_crc none four_pages 3 ≡ (q, ok tt))
    × (allocate_page sum_crc none q ≡ (r, ok 3))
    × (r.free_list_head ≡ sentinel)
    × (r.free_count ≡ 0)
    × (read_page sum_crc none r 3 ≡ (r, ok (zeros body_size)))
    × ((j : ℕ)
        → 3 ≢ j
        → IsInUse four_pages j
        → (read_page sum_crc none r j).1 ≡ (read_page sum_crc none four_pages j).1)
free_page-allocate_page_example =
    free_page-allocate_page sum_crc sum_fits four_pages 3 three-IsInUse refl (omega arith)
      (omega arith)

-- A page's record, and the end of its transaction, with nothing and with a torn record behind.
abbrev page_record : WalRecord
page_record = record { txn_id = 7; page_id = 3; body = ones }

abbrev eot_record : WalRecord
eot_record = record { txn_id = 7; page_id = sentinel; body = [] }

page_IsRecord : IsRecord page_record
page_IsRecord = record { txn_fits = omega arith; page_fits = omega arith; size_ok = ones_size }

eot_IsRecord : IsRecord eot_record
eot_IsRecord = record { txn_fits = omega arith; page_fits = omega arith; size_ok = refl }

-- Five bytes of a marker.
abbrev torn_marker : List ℕ
torn_marker = 0 ∷ 0 ∷ 0 ∷ 0 ∷ 0 ∷ []

torn_marker-IsTorn : IsTorn sum_crc sum_fits torn_marker
unfolding encode_eot_marker put_be
torn_marker-IsTorn =
    (eot_record, drop 5 (encode_eot_marker sum_crc 7), eot_IsRecord, refl, omega arith)

parse_wal-log_of_example :
    parse_wal sum_crc (log_of sum_crc sum_fits (page_record ∷ eot_record ∷ []) ++ torn_marker)
    ≡ records (page_record ∷ eot_record ∷ [])
parse_wal-log_of_example =
    parse_wal-log_of sum_crc sum_fits (page_record ∷ eot_record ∷ []) torn_marker
      (page_IsRecord, (eot_IsRecord, tt)) torn_marker-IsTorn

abbrev fresh_header : PagerHeader
fresh_header = record {
  magic = magic_number;
  version = format_version;
  page_size_field = page_size;
  page_count = 2;
  free_list_head = sentinel;
  free_page_count = 0;
}

decode-encode_header_example :
    decode_header sum_crc (encode_header sum_crc fresh_header) ≡ ok fresh_header
decode-encode_header_example = decode-encode_header sum_crc sum_fits fresh_header (record {
  magic_ok = refl;
  version_ok = refl;
  size_ok = refl;
  count_fits = omega arith;
  head_fits = omega arith;
  free_fits = omega arith;
})

encode_data_page-total_example :
    (image : List ℕ) × (encode_data_page sum_crc ones ≡ ok image)
    × (length image ≡ page_size)
    × (decode_data_page sum_crc image ≡ ok ones)
encode_data_page-total_example = encode_data_page-total sum_crc sum_fits ones ones_size

-- A committed transaction with two writes to a page, and one without an end.
abbrev two_txns : List Txn
two_txns =
    record { id = 1; writes = two_writes; committed = true }
    ∷ record { id = 2; writes = (2, ones) ∷ []; committed = false }
    ∷ []

two_txns-IsTxn : All (IsTxn 4) two_txns
two_txns-IsTxn = (
  record {
    id_fits = omega arith;
    left_record = omega arith;
    fits = ((omega arith, length-zeros body_size), ((omega arith, ones_size), tt));
  },
  (
    record {
      id_fits = omega arith;
      left_record = omega arith;
      fits = ((omega arith, ones_size), tt);
    },
    tt,
  ),
)

replay_wal-committed_example :
    (after : List (List ℕ)) × (replay_wal sum_crc four_pages.main_file
        (log_of sum_crc sum_fits (all_records two_txns) ++ torn_marker)
      ≡ (after, [], ok tt))
    × ((j : ℕ)
        → read_body_unchecked sum_crc after j
          ≡ as_committed two_txns j (read_body_unchecked sum_crc four_pages.main_file j))
    × (length after ≡ 4)
replay_wal-committed_example =
    replay_wal-committed sum_crc sum_fits two_txns four_pages.main_file torn_marker
      (((λ e. omega (arith, e)), tt), (tt, tt)) (omega arith) two_txns-IsTxn torn_marker-IsTorn

abbrev committed_txn : Txn
committed_txn = record { id = 1; writes = (2, ones) ∷ (3, ones) ∷ []; committed = true }

-- Of the two pages, the second was written before the crash.
abbrev second_page : List (ℕ × List ℕ)
second_page = (3, ones) ∷ []

-- A transaction that is on the disk, and one that was rolled back.
abbrev earlier_txns : List Txn
earlier_txns =
    record { id = 3; writes = (2, zeros body_size) ∷ []; committed = true }
    ∷ record { id = 2; writes = (2, ones) ∷ []; committed = false }
    ∷ []

parse_wal-IsDone_example :
    IsDone (parse_wal sum_crc (torn_marker ++ (encode_wal_record sum_crc 1 3 ones ++ torn_marker)))
parse_wal-IsDone_example =
    parse_wal-IsDone sum_crc (torn_marker ++ (encode_wal_record sum_crc 1 3 ones ++ torn_marker))
