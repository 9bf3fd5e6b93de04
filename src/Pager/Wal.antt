-- ===== src/Pager/Wal.antt =====
-- wal.go: the records of the write-ahead log, and replayWALInternal's parsing of a whole log.
pub mod Records
pub mod Parse
pub mod Replay
pub mod Groups
pub mod Committed
pub mod Crash
pub mod Total
use plomvix.Base.{
  ℕ, zero, suc, ◌+◌, ◌-◌, ◌^◌, ◌≤◌, ◌<◌, ◌%◌, Bool, List, [], ◌∷◌, ◌++◌, length, take, drop, ◌==◌,
  ltb, leb, ◌&&◌, if◌then◌else◌, Result, ok, err, require, ◌>>=◌, ◌>>◌,
}
use plomvix.Base.Bytes.{put_be, get_be}
use plomvix.Pager.{Error, eof, wal_corrupt, sentinel, body_size}
use plomvix.Pager.Header.{number_at}

pub record WalRecord : Type 0 where
  pub txn_id : ℕ
  pub page_id : ℕ
  pub body : List ℕ

-- `len` is the uint32 of the body's length.
abbrev pub frame : ℕ → ℕ → ℕ → List ℕ → List ℕ
frame txn_id page_id len body = put_be 8 txn_id ++ (put_be 8 page_id ++ (put_be 4 len ++ body))

-- The body length that decodeNextWALRecord accepts for a page id.
abbrev pub expected_length : ℕ → ℕ
expected_length page_id = if page_id == sentinel then 0 else body_size

module _ (crc32 : List ℕ → ℕ) where
  abbrev pub sealed : List ℕ → List ℕ
  sealed bs = bs ++ put_be 4 (crc32 bs)

  -- encodeWALRecord
  unfoldable pub encode_wal_record : ℕ → ℕ → List ℕ → List ℕ
  encode_wal_record txn_id page_id body = sealed (frame txn_id page_id (length body % 2 ^ 32) body)

  -- encodeEOTMarker
  unfoldable pub encode_eot_marker : ℕ → List ℕ
  encode_eot_marker txn_id = sealed (frame txn_id sentinel 0 [])

  -- decodeNextWALRecord: the record and the number of bytes consumed.
  unfoldable pub decode_next_wal_record : List ℕ → Result Error (WalRecord × ℕ)
  decode_next_wal_record bs =
      let page_id = number_at bs 8 8 in
      let n = number_at bs 16 4 in
      if ltb (length bs) 20 then err eof else (do
        require (n == expected_length page_id) wal_corrupt
        require (leb (20 + n + 4) (length bs)) eof
        require (number_at bs (20 + n) 4 == crc32 (take (20 + n) bs)) wal_corrupt
        ok (
          record { txn_id = number_at bs 0 8; page_id = page_id; body = take n (drop 20 bs) },
          20 + n + 4,
        ))

-- isEOTMarker
abbrev pub is_eot_marker : ℕ → ℕ → Bool
is_eot_marker page_id body_length = page_id == sentinel && body_length == 0

-- The outcome of the loop over the log: the records, the first corrupt record's error, or out of
-- fuel.
pub data Parsed : Type 0 where
  records : List WalRecord → Parsed
  corrupt : Error → Parsed
  stuck : Parsed

abbrev pub before : WalRecord → Parsed → Parsed
before r (records rs) = records (r ∷ rs)
before r (corrupt e) = corrupt e
before r stuck = stuck

module _ (crc32 : List ℕ → ℕ) where
  -- `for offset < len(walData)`; `bs` is walData[offset:].
  unfoldable pub parse_wal_loop : ℕ → List ℕ → Parsed
  parse_wal_loop fuel [] = records []
  parse_wal_loop zero (b ∷ bs) = stuck
  parse_wal_loop (suc fuel) (b ∷ bs) = elim (decode_next_wal_record crc32 (b ∷ bs)) [
    | err eof ↦ records []
    | err e ↦ corrupt e
    | ok (r, consumed) ↦ before r (parse_wal_loop fuel (drop consumed (b ∷ bs)))
  ]

  -- Each record takes a byte at least, so as many rounds as there are bytes are enough.
  unfoldable pub parse_wal : List ℕ → Parsed
  parse_wal bs = parse_wal_loop (length bs) bs
