-- ===== src/Pager/Wal/Replay.antt =====
-- replayWALInternal: the records grouped by transaction, and the complete groups applied.
use plomvix.Base.{ℕ, Bool, false, List, [], ◌∷◌, ◌++◌, ◌==◌, ◌||◌, if◌then◌else◌, Result, ok, err}
use plomvix.Pager.{Error, wal_corrupt}
use plomvix.Pager.Wal.{WalRecord, is_eot_marker, records, corrupt, stuck, parse_wal}
use plomvix.Pager.Disk.{put, write_pages}

-- A transaction's id and its records, in the order of their first appearance.
abbrev pub add_record : WalRecord → List (ℕ × List WalRecord) → List (ℕ × List WalRecord)
add_record r [] = (r.txn_id, r ∷ []) ∷ []
add_record r ((t, rs) ∷ groups) =
    if t == r.txn_id then (t, rs ++ (r ∷ [])) ∷ groups else (t, rs) ∷ add_record r groups

abbrev pub group_records : List WalRecord → List (ℕ × List WalRecord) → List (ℕ × List WalRecord)
group_records [] groups = groups
group_records (r ∷ rs) groups = group_records rs (add_record r groups)

abbrev pub has_eot : List WalRecord → Bool
has_eot [] = false
has_eot (r ∷ rs) = is_eot_marker r.page_id 0 || has_eot rs

-- `applied`: the last write of each page.
abbrev pub last_writes : List WalRecord → List (ℕ × List ℕ) → List (ℕ × List ℕ)
last_writes [] applied = applied
last_writes (r ∷ rs) applied =
    let marked = last_writes rs applied in
    let written = last_writes rs (put r.page_id r.body applied) in
    if is_eot_marker r.page_id 0 then marked else written

module _ (crc32 : List ℕ → ℕ) where
  unfoldable pub apply_groups :
      List (ℕ × List WalRecord) → List (List ℕ) → List (List ℕ) × Result Error (Unit {0})
  apply_groups [] disk = (disk, ok tt)
  apply_groups ((t, rs) ∷ groups) disk =
      let skipped = apply_groups groups disk in
      if has_eot rs
      then (let (after, result) = write_pages crc32 (last_writes rs []) disk in
          elim result [ ok u ↦ apply_groups groups after | err e ↦ (after, err e) ])
      else skipped

  -- The main file, the log and the result after a replay.
  unfoldable pub replay_wal :
      List (List ℕ) → List ℕ → List (List ℕ) × List ℕ × Result Error (Unit {0})
  replay_wal disk [] = (disk, [], ok tt)
  replay_wal disk (b ∷ bs) = elim (parse_wal crc32 (b ∷ bs)) [
    | records rs ↦
        (let (after, result) = apply_groups (group_records rs []) disk in
          elim result [ ok u ↦ (after, [], ok tt) | err e ↦ (after, b ∷ bs, err e) ])
    | corrupt e ↦ (disk, b ∷ bs, err e)
    | stuck ↦ (disk, b ∷ bs, err wal_corrupt)
  ]
