-- ===== src/Pager/FilePager/Open.antt =====
-- filePager.Open: a fresh file, or the header, the free list and the log of an existing one.
use plomvix.Base.{
  ℕ, zero, suc, false, not, ◌||◌, List, [], ◌∷◌, length, get_elem?, ◌==◌, leb, if◌then◌else◌,
  Option, none, some, Result, ok, err, ◌>>=◌,
}
use plomvix.Base.Int.{ℤ}
use plomvix.Pager.{Error, already_open, closed, free_list_corrupt, io_read, sentinel}
use plomvix.Pager.Page.{decode_free_list_pointer}
use plomvix.Pager.Header.{PagerHeader, decode_header}
use plomvix.Pager.Disk.{write_at, read_body_unchecked}
use plomvix.Pager.FilePager.{
  FilePager, Outcome, StoreState, never_opened, is_open, is_closed, guard, when, contains,
  write_header, checkpoint,
}

-- newPager: the files as they are on the disk, nothing opened.
abbrev pub new_pager : ℤ → List (List ℕ) → List ℕ → FilePager
new_pager threshold main wal = record {
  checkpoint_threshold = threshold;
  main_file = main;
  wal_file = wal;
  state = never_opened;
  page_count = 0;
  free_list_head = sentinel;
  free_count = 0;
  free_set = [];
  in_txn = false;
  next_txn_id = 0;
  current_txn = 0;
  txn_buffer = [];
  wal_size = 0;
}

-- The state guards of Open.
abbrev pub check_unopened : StoreState → Option Error
check_unopened never_opened = none
check_unopened is_open = some already_open
check_unopened is_closed = some closed

module _ (crc32 : List ℕ → ℕ) where
  abbrev pub header_at : List (List ℕ) → ℕ → Result Error PagerHeader
  header_at main page_id = elim (get_elem? main page_id) [
    | none ↦ err io_read
    | some image ↦ decode_header crc32 image
  ]

  -- The header and the file, where a header that only the mirror has is written back to page 0.
  unfoldable pub read_headers : List (List ℕ) → Result Error (PagerHeader × List (List ℕ))
  read_headers main = elim (header_at main 0) [
    | ok h ↦ ok (h, main)
    | err e ↦ (elim (get_elem? main 1) [
      | none ↦ err io_read
      | some image ↦ decode_header crc32 image >>= λ h. ok (h, write_at 0 image main)
    ])
  ]

  -- The walk of the free list; `seen` is walkSeen, which has the pages of freeSet. A page that is
  -- met twice ends the walk, so `page_count` rounds and one more are enough.
  unfoldable pub walk_free_list : ℕ → ℕ → List (List ℕ) → ℕ → List ℕ → Result Error (List ℕ)
  walk_free_list zero page_count main curr seen = err free_list_corrupt
  walk_free_list (suc fuel) page_count main curr seen =
      let step = λ (next : ℕ). walk_free_list fuel page_count main next (curr ∷ seen) in
      if curr == sentinel
      then ok seen
      else (if curr == 0 || leb page_count curr
          then err free_list_corrupt
          else (if contains curr seen
              then err free_list_corrupt
              else (read_body_unchecked crc32 main curr >>= λ body.
                  decode_free_list_pointer body >>= λ next. step next)))

  -- The existing file, with its free list walked: the state from then on, the log's size included.
  abbrev pub loaded : FilePager → PagerHeader → List (List ℕ) → List ℕ → FilePager
  loaded p h main free = record p {
    main_file = main;
    state = is_open;
    page_count = h.page_count;
    free_list_head = h.free_list_head;
    free_count = h.free_page_count;
    free_set = free;
  }

  unfoldable pub open_existing : FilePager → Outcome (Unit {0})
  open_existing p = elim (read_headers p.main_file) [
    | err e ↦ (p, err e)
    | ok (h, main) ↦
        (elim (walk_free_list (suc (suc h.page_count)) h.page_count main h.free_list_head []) [
          | err e ↦ (record p { main_file = main }, err e)
          | ok free ↦
              (let q = loaded p h main free in
                guard (when (not (length free == h.free_page_count)) free_list_corrupt) q
                  (checkpoint crc32 (record q { wal_size = length p.wal_file })))
        ])
  ]

  -- Open
  unfoldable pub open_pager : Option Error → FilePager → Outcome (Unit {0})
  open_pager ctx p =
      let fresh = record (write_header crc32 p 2 sentinel) {
        state = is_open;
        page_count = 2;
        free_list_head = sentinel;
        free_count = 0;
      } in
      let existing = open_existing p in
      guard ctx p (
        guard (check_unopened p.state) p
          (if length p.main_file == 0 then (fresh, ok tt) else existing))
