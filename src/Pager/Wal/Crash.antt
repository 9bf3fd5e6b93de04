-- ===== src/Pager/Wal/Crash.antt =====
-- A crash of CommitTx while it writes the buffer's pages, and the replay at the next Open.
use plomvix.Base.{ℕ, ◌≡◌, List, none, All, ◌⊎◌}
use plomvix.Pager.Disk.{lookup}
use plomvix.Pager.FilePager.Buffers.{IsMap, Fits}

-- Some pages of a buffer, in any order: each page once, with its body in the buffer.
pub record IsPart (n : ℕ) (part m : List (ℕ × List ℕ)) : Type 0 where
  pub once : IsMap part
  pub fits : All (Fits n) part
  pub agrees : (j : ℕ) → (lookup j part ≡ none) ⊎ (lookup j part ≡ lookup j m)
