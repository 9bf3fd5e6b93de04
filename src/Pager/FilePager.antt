-- ===== src/Pager/FilePager.antt =====
-- pager.go: the state of a filePager and its operations but Open. Each gives the state after it,
-- on an error too. `ctx` is the error of the context, if it is done.
pub mod Open
pub mod Reads
pub mod Buffers
pub mod Logged
pub mod Transactions
pub mod Commit
pub mod FreeList
pub mod Extend
use plomvix.Base.{
  ℕ, suc, ◌+◌, ◌-◌, ◌^◌, ◌%◌, Bool, true, false, not, ◌&&◌, ◌||◌, List, [], ◌∷◌, ◌++◌, length, take,
  drop, ◌==◌, ltb, leb, if◌then◌else◌, Option, none, some, Result, ok, err,
}
use plomvix.Base.Int.{ℤ, pos, negsuc}
use plomvix.Pager.{
  Error, not_open, closed, invalid_page_id, body_size_mismatch, already_free, tx_already_active,
  no_active_tx, tx_unsupported_op, body_size, page_size, magic_number, format_version, sentinel,
}
use plomvix.Pager.Page.{zeros, encode_free_list_pointer, decode_free_list_pointer}
use plomvix.Pager.Header.{PagerHeader, encode_header}
use plomvix.Pager.Wal.{encode_wal_record, encode_eot_marker}
use plomvix.Pager.Wal.Replay.{replay_wal}
use plomvix.Pager.Disk.{
  write_at, lookup, put, read_body_unchecked, write_body_unchecked, write_pages,
}

pub data StoreState : Type 0 where
  never_opened is_open is_closed : StoreState

pub record FilePager : Type 0 where
  pub checkpoint_threshold : ℤ
  pub main_file : List (List ℕ)
  pub wal_file : List ℕ
  pub state : StoreState
  pub page_count : ℕ
  pub free_list_head : ℕ
  pub free_count : ℕ
  pub free_set : List ℕ
  pub in_txn : Bool
  pub next_txn_id : ℕ
  pub current_txn : ℕ
  pub txn_buffer : List (ℕ × List ℕ)
  pub wal_size : ℕ

-- p.opts.CheckpointThreshold == 0 || p.walSize >= p.opts.CheckpointThreshold
abbrev pub checkpoint_due : ℤ → ℕ → Bool
checkpoint_due (pos t) wal_size = t == 0 || leb t wal_size
checkpoint_due (negsuc n) wal_size = true

abbrev pub Outcome : Type 0 → Type 0
Outcome A = FilePager × Result Error A

-- `if err := ...; err != nil { return err }`
abbrev pub guard : {A : Type 0} → Option Error → FilePager → Outcome A → Outcome A
guard (some e) p k = (p, err e)
guard none p k = k

abbrev pub when : Bool → Error → Option Error
when true e = some e
when false e = none

-- checkState
abbrev pub check_state : StoreState → Option Error
check_state is_open = none
check_state never_opened = some not_open
check_state is_closed = some closed

-- Membership of freeSet, and delete from it.
abbrev pub contains : ℕ → List ℕ → Bool
contains k [] = false
contains k (j ∷ s) = j == k || contains k s

abbrev pub delete : ℕ → List ℕ → List ℕ
delete k [] = []
delete k (j ∷ s) = if j == k then delete k s else j ∷ delete k s

-- validatePageID
abbrev pub validate_page_id : FilePager → ℕ → Option Error
validate_page_id p page_id =
    when (page_id == 0 || (page_id == 1 || leb p.page_count page_id)) invalid_page_id

-- The guards that ReadPage and WritePage share.
abbrev pub page_guard : {A : Type 0} → Option Error → FilePager → ℕ → Outcome A → Outcome A
page_guard ctx p page_id k = guard ctx p (
    guard (check_state p.state) p (
      guard (validate_page_id p page_id) p
        (guard (when (contains page_id p.free_set) invalid_page_id) p k)))

-- WriteAt on the log at an offset in it or at its end.
abbrev pub write_log : ℕ → List ℕ → List ℕ → List ℕ
write_log off bs file = take off file ++ (bs ++ drop (off + length bs) file)

module _ (crc32 : List ℕ → ℕ) where
  -- writeHeader: the mirror, then the primary.
  unfoldable pub write_header : FilePager → ℕ → ℕ → FilePager
  write_header p page_count free_list_head =
      let image = encode_header crc32 (record {
        magic = magic_number;
        version = format_version;
        page_size_field = page_size;
        page_count = page_count;
        free_list_head = free_list_head;
        free_page_count = p.free_count;
      }) in
      record p { main_file = write_at 0 image (write_at 1 image p.main_file) }

  -- ReadPage: a body from the buffer has the size that WritePage checked, so its copy is it.
  unfoldable pub read_page : Option Error → FilePager → ℕ → Outcome (List ℕ)
  read_page ctx p page_id =
      let unbuffered : Outcome (List ℕ) = (p, read_body_unchecked crc32 p.main_file page_id) in
      page_guard ctx p page_id (
        if p.in_txn
        then (elim (lookup page_id p.txn_buffer) [ some body ↦ (p, ok body) | none ↦ unbuffered ])
        else unbuffered)

  -- appendWAL
  unfoldable pub append_wal : FilePager → ℕ → List ℕ → Outcome (Unit {0})
  append_wal p page_id body =
      let bytes = encode_wal_record crc32 p.current_txn page_id body in
      (
        record p {
          wal_file = write_log p.wal_size bytes p.wal_file;
          txn_buffer = put page_id body p.txn_buffer;
          wal_size = p.wal_size + length bytes;
        },
        ok tt,
      )

  -- writeBodyUnchecked, in the pager
  unfoldable pub write_direct :
      {A : Type 0} → FilePager → ℕ → List ℕ → (FilePager → Outcome A) → Outcome A
  write_direct p page_id body next = elim (write_body_unchecked crc32 p.main_file page_id body) [
    | ok file ↦ next (record p { main_file = file })
    | err e ↦ (p, err e)
  ]

  -- WritePage
  unfoldable pub write_page : Option Error → FilePager → ℕ → List ℕ → Outcome (Unit {0})
  write_page ctx p page_id body = page_guard ctx p page_id (
      guard (when (not (length body == body_size)) body_size_mismatch) p (
        if p.in_txn
        then append_wal p page_id body
        else write_direct p page_id body (λ q. (q, ok tt))))

  -- checkpoint and replayWAL
  unfoldable pub checkpoint : FilePager → Outcome (Unit {0})
  checkpoint p =
      if p.wal_size == 0
      then (p, ok tt)
      else (let replayed = replay_wal crc32 p.main_file (take p.wal_size p.wal_file) in
          elim (replayed.2) [
            | err e ↦ (record p { main_file = replayed.0 }, err e)
            | ok u ↦ (record p { main_file = replayed.0; wal_file = []; wal_size = 0 }, ok tt)
          ])

-- BeginTx
unfoldable pub begin_tx : Option Error → FilePager → Outcome (Unit {0})
begin_tx ctx p = guard ctx p (
    guard (check_state p.state) p (
      guard (when p.in_txn tx_already_active) p (
        record p {
          in_txn = true;
          next_txn_id = suc p.next_txn_id % 2 ^ 64;
          current_txn = suc p.next_txn_id % 2 ^ 64;
          txn_buffer = [];
        },
        ok tt,
      )))

-- RollbackTx
unfoldable pub rollback_tx : Option Error → FilePager → Outcome (Unit {0})
rollback_tx ctx p = guard ctx p (
    guard (check_state p.state) p (
      guard (when (not p.in_txn) no_active_tx) p
        (record p { in_txn = false; txn_buffer = []; current_txn = 0 }, ok tt)))

module _ (crc32 : List ℕ → ℕ) where
  -- CommitTx up to the end of step 2: the marker is in the log, the transaction is over.
  unfoldable pub log_commit : FilePager → FilePager
  log_commit p =
      let bytes = encode_eot_marker crc32 p.current_txn in
      record p {
        wal_file = write_log p.wal_size bytes p.wal_file;
        wal_size = p.wal_size + length bytes;
        in_txn = false;
        txn_buffer = [];
        current_txn = 0;
      }

  -- CommitTx
  unfoldable pub commit_tx : Option Error → FilePager → Outcome (Unit {0})
  commit_tx ctx p = guard ctx p (
      guard (check_state p.state) p (
        guard (when (not p.in_txn) no_active_tx) p (
          let logged = log_commit p in
          let (main, result) = write_pages crc32 p.txn_buffer logged.main_file in
          let applied = record logged { main_file = main } in
          let checkpointed = checkpoint crc32 applied in
          elim result [
            | err e ↦ (applied, err e)
            | ok u ↦
                (if checkpoint_due p.checkpoint_threshold logged.wal_size
                  then checkpointed
                  else (applied, ok tt))
          ])))

  -- Close
  unfoldable pub close : FilePager → Outcome (Unit {0})
  close p =
      let (q, result) = checkpoint crc32 p in
      guard (check_state p.state) p
        (elim result [ err e ↦ (q, err e) | ok u ↦ (record q { state = is_closed }, ok tt) ])

  -- AllocatePage
  unfoldable pub allocate_page : Option Error → FilePager → Outcome ℕ
  allocate_page ctx p =
      let id = p.free_list_head in
      let new_id = p.page_count in
      let reused = λ (next : ℕ). write_direct crc32 p id (zeros body_size) (λ q.
        let r = record q {
          free_set = delete id p.free_set;
          free_list_head = next;
          free_count = p.free_count - 1;
        } in
        (write_header crc32 r p.page_count next, ok id)) in
      let extended = write_direct crc32 p new_id (zeros body_size) (λ q. (
        write_header crc32 (record q { page_count = suc new_id }) (suc new_id) p.free_list_head,
        ok new_id,
      )) in
      guard ctx p (
        guard (check_state p.state) p (
          guard (when p.in_txn tx_unsupported_op) p (
            if not (id == sentinel)
            then (elim (read_body_unchecked crc32 p.main_file id) [
              | err e ↦ (p, err e)
              | ok body ↦ (elim (decode_free_list_pointer body) [
                | err e ↦ (p, err e)
                | ok next ↦ reused next
              ])
            ])
            else extended)))

  -- FreePage
  unfoldable pub free_page : Option Error → FilePager → ℕ → Outcome (Unit {0})
  free_page ctx p page_id =
      let freed = write_direct crc32 p page_id (encode_free_list_pointer p.free_list_head) (λ q.
        let r = record q {
          free_set = page_id ∷ p.free_set;
          free_list_head = page_id;
          free_count = suc p.free_count;
        } in
        (write_header crc32 r p.page_count page_id, ok tt)) in
      guard ctx p (
        guard (check_state p.state) p (
          guard (when p.in_txn tx_unsupported_op) p (
            guard (when (page_id == 0) invalid_page_id) p (
              guard (when (leb p.page_count page_id) invalid_page_id) p
                (guard (when (contains page_id p.free_set) already_free) p freed)))))

-- PageCount
unfoldable pub page_count_of : FilePager → Outcome ℕ
page_count_of p = guard (check_state p.state) p (p, ok p.page_count)
