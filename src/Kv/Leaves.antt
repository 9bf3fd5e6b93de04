-- ===== src/Kv/Leaves.antt =====
-- btree.go: what Set and Delete make of the entries of a leaf and of the routes of an internal node.
pub mod Sorted
pub mod Find
pub mod Split
pub mod Routes
use plomvix.Base.{
  ℕ, zero, suc, ◌/◌, ◌+◌, Bool, true, false, List, [], ◌∷◌, length, take, drop, if◌then◌else◌,
  Option, none, some,
}
use plomvix.Kv.{Bytes, less, same}

module _ {V : Type 0} where
  -- insertIntoLeaf: before the first key that is not less.
  unfoldable pub insert_entry : Bytes → V → List (Bytes × V) → List (Bytes × V)
  insert_entry k v [] = (k, v) ∷ []
  insert_entry k v ((j, w) ∷ entries) =
      if less j k then (j, w) ∷ insert_entry k v entries else (k, v) ∷ (j, w) ∷ entries

  -- The loop of splitLeaf: before the first key that the new one is less than.
  unfoldable pub merge_entry : Bytes → V → List (Bytes × V) → List (Bytes × V)
  merge_entry k v [] = (k, v) ∷ []
  merge_entry k v ((j, w) ∷ entries) =
      if less k j then (k, v) ∷ (j, w) ∷ entries else (j, w) ∷ merge_entry k v entries

  -- updateLeaf: the value at the first key that equals k.
  unfoldable pub update_entry : Bytes → V → List (Bytes × V) → List (Bytes × V)
  update_entry k v [] = []
  update_entry k v ((j, w) ∷ entries) =
      if same j k then (j, v) ∷ entries else (j, w) ∷ update_entry k v entries

  -- deleteFromTree: without the first key that equals k.
  unfoldable pub delete_entry : Bytes → List (Bytes × V) → List (Bytes × V)
  delete_entry k [] = []
  delete_entry k ((j, w) ∷ entries) = if same j k then entries else (j, w) ∷ delete_entry k entries

  -- The two leaves of splitLeaf, over allKeys and allVals.
  unfoldable pub halves : List (Bytes × V) → List (Bytes × V) × List (Bytes × V)
  halves entries = (take (length entries / 2) entries, drop (length entries / 2) entries)

-- The insertion of insertIntoInternal and splitInternal behind the first child. An index past the
-- entries does not come from upperBoundIdx.
unfoldable pub insert_route_at : ℕ → ℕ → Bytes → ℕ → List (Bytes × ℕ) → List (Bytes × ℕ)
insert_route_at i left sep right [] = []
insert_route_at zero left sep right ((k, c) ∷ entries) = (k, left) ∷ (sep, right) ∷ entries
insert_route_at (suc i) left sep right ((k, c) ∷ entries) =
    (k, c) ∷ insert_route_at i left sep right entries

-- newPtrs and newKeys of insertIntoInternal, allPtrs and allKeys of splitInternal.
unfoldable pub insert_route : ℕ → ℕ → Bytes → ℕ → ℕ × List (Bytes × ℕ) → ℕ × List (Bytes × ℕ)
insert_route zero left sep right (first, entries) = (left, (sep, right) ∷ entries)
insert_route (suc i) left sep right (first, entries) =
    (first, insert_route_at i left sep right entries)

pub record InternalSplit : Type 0 where
  pub left_entries : List (Bytes × ℕ)
  pub middle_key : Bytes
  pub right_first : ℕ
  pub right_entries : List (Bytes × ℕ)

-- The halves of splitInternal around allKeys[mid]; the left one keeps the first child.
abbrev pub around : List (Bytes × ℕ) → List (Bytes × ℕ) → Option InternalSplit
around left [] = none
around left ((k, c) ∷ after) =
    some (record { left_entries = left; middle_key = k; right_first = c; right_entries = after })

unfoldable pub split_routes : List (Bytes × ℕ) → Option InternalSplit
split_routes entries =
    around (take (length entries / 2) entries) (drop (length entries / 2) entries)
