-- ===== src/Kv/Lookup.antt =====
-- Get, where the values of a leaf are stored in it.
pub mod Leaf
pub mod Calls
pub mod Empty
use plomvix.Base.{
  ℕ, zero, suc, ◌+◌, ◌≤◌, ◌<◌, ◌≡◌, ◌≢◌, refl, sym, ap, ◌∙◌, ◌⊎◌, Bool, true, false, List, [], ◌∷◌,
  map, length, arith, All, Option, none, some, Result, ok, err, ◌==◌, ltb, leb, if◌then◌else◌,
  Bool-cases, Option-cases, inl, inr, ==_ne,
}
use mathlib.Core.Path.{subst}
use plomvix.Base.Int.{IsU64}
use plomvix.Pager.FilePager.Commit.{HasRoom}
use plomvix.Pager
use plomvix.Pager.{body_size, sentinel, IsCrc32}
use plomvix.Pager.FilePager.{FilePager}
use plomvix.Kv.{
  Bytes, Error, key_not_found, closed, not_open, node_type_leaf, same, max_key_size, max_val_size,
  max_leaf_keys, max_val_size_enterprise,
}
use plomvix.Kv.Node.{
  LeafValueRef, first_byte, encode_leaf_node, decode_leaf_node, decode_leaf_node_refs, ref_value,
}
use plomvix.Kv.Node.Slot.{IsStored, ref_of, ref_entry, small_enough}
use plomvix.Kv.Node.Leaf.{IsLeaf, decode-encode_leaf_node}
use plomvix.Kv.Pages.{M, and_then, done, fail, lift, ◌>>=◌, write, in_tx}
use plomvix.Kv.Store.{body_at}
use plomvix.Kv.Search.{
  BtreeStore, find, get, search, search_leaf, read_value, check_open, with_pages, with_root,
}
use plomvix.Kv.Leaves.{insert_entry, merge_entry, halves, update_entry, delete_entry}
use plomvix.Kv.Leaves.Sorted.{
  IsSorted, ascending-IsSorted, IsSorted-ascending, All-insert_entry, insert_entry-IsSorted,
  update_entry-IsSorted, delete_entry-IsSorted, All-delete_entry, All-update_entry,
  length-insert_entry, length-update_entry, length-delete_entry,
}
use plomvix.Kv.Leaves.Find.{find-insert_entry, find-update_entry, find-delete_entry}
use plomvix.Kv.Set.{
  set, set_in_tree, set_in_leaf, set_in_entries, set_from, store_leaf, split_leaf, prepare_overflow,
  PathEntry,
}
use plomvix.Kv.Delete.{delete, delete_from_leaf}
use plomvix.Kv.Route.{Route, search-Route, set_from-Route, delete_from_tree-Route}
use plomvix.Kv.Rewrite.{IsRewritten, in_tx-IsRewritten, Route-rewritten, Route-other}

-- What Get makes of an entry looked up.
abbrev pub found : Option Bytes → Result Error Bytes
found none = err key_not_found
found (some v) = ok v

-- A value that its leaf holds.
abbrev pub IsSmall : Bytes × Bytes → Type 0
IsSmall e = length e.1 ≤ max_val_size

pub not_large : (n : ℕ) → n ≤ max_val_size → ltb max_val_size n ≡ false
not_large n h = ground arith

ref_of-small : (v : Bytes) → length v ≤ max_val_size → ref_value (ref_of v) ≡ v
ref_of-small v h = rw (not_large (length v) h) refl

values-small :
    (entries : List (Bytes × Bytes))
    → All IsSmall entries
    → map (λ e. (e.0, ref_value (e.1))) (map ref_entry entries) ≡ entries
values-small [] h = refl
values-small ((k, v) ∷ entries) h =
    ap (λ x. (k, x) ∷ map (λ e. (e.0, ref_value (e.1))) (map ref_entry entries))
      (ref_of-small v h.0)
    ∙ ap (λ l. (k, v) ∷ l) (values-small entries h.1)

-- The body of a leaf whose values are all in it.
pub record IsSmallLeaf (body : Bytes) (entries : List (Bytes × Bytes)) (next_leaf : ℕ)
    : Type 0 where
  pub is_leaf : IsLeaf entries next_leaf
  pub small : All IsSmall entries
  pub tagged : first_byte body ≡ node_type_leaf
  pub decodes : decode_leaf_node_refs body ≡ ok (map ref_entry entries, next_leaf)

pub decode_small :
    (body : Bytes) (entries : List (Bytes × Bytes)) (next_leaf : ℕ)
    → IsSmallLeaf body entries next_leaf
    → decode_leaf_node body ≡ ok (entries, next_leaf)
unfolding decode_leaf_node
decode_small body entries next_leaf l =
    rw (l.decodes) (ap (λ es. ok (es, next_leaf)) (values-small entries l.small))

-- New entries of a leaf have such a body.
pub encode_small :
    (entries : List (Bytes × Bytes)) (next_leaf : ℕ)
    → IsLeaf entries next_leaf
    → All IsSmall entries
    → (body : Bytes) × (encode_leaf_node entries next_leaf ≡ ok body)
      × (length body ≡ body_size)
      × IsSmallLeaf body entries next_leaf
encode_small entries next_leaf l small =
    let (body, e, size, t, d) = decode-encode_leaf_node entries next_leaf l in
    (body, e, size, record { is_leaf = l; small = small; tagged = t; decodes = d })

module _ (crc32 : List ℕ → ℕ) where
  search_entries :
      (k : Bytes) (p : FilePager) (entries : List (Bytes × Bytes))
      → All IsSmall entries
      → (elim (find k (map ref_entry entries)) as (λ o. M Bytes) [
        | none ↦ fail key_not_found
        | some ref ↦ read_value crc32 none ref
      ])
          p
        ≡ (p, found (find k entries))
  search_entries k p [] h = refl
  search_entries k p ((j, v) ∷ entries) h = elim (Bool-cases (same j k)) [
    | inl e ↦ rw (e, not_large (length v) h.0) refl
    | inr e ↦ rw e (search_entries k p entries h.1)
  ]

  search_leaf-small :
      (k : Bytes) (p : FilePager) (body : Bytes) (entries : List (Bytes × Bytes)) (next_leaf : ℕ)
      → IsSmallLeaf body entries next_leaf
      → search_leaf crc32 none body k p ≡ (p, found (find k entries))
  unfolding search_leaf
  search_leaf-small k p body entries next_leaf l =
      rw (l.decodes) (search_entries k p entries l.small)

-- A store that is open, with a tree, outside a transaction, with an empty log or one far enough below the
-- checkpoint threshold for one page.
pub record IsReady (s : BtreeStore) : Type 0 where
  pub opened : s.is_open ≡ true
  pub not_closed : s.is_closed ≡ false
  pub rooted : s.root_page_id ≢ sentinel
  pub outside : s.pg.in_txn ≡ false
  pub has_room : HasRoom s.pg 1

-- A call of an open store.
pub check_open-pass :
    {A : Type 0} (s : BtreeStore) (k : BtreeStore × Result Error A)
    → s.is_open ≡ true
    → s.is_closed ≡ false
    → check_open s k ≡ k
check_open-pass s k o c =
    ap (λ b. if b then (s, err closed) else (if s.is_open then k else (s, err not_open))) c
    ∙ ap (λ b. if b then k else (s, err not_open)) o

module _ (crc32 : List ℕ → ℕ) where
  -- Get of a key that routes to a leaf whose values are in it leaves the store and gives what stands
  -- there.
  pub get-Route :
      (n : ℕ) (s : BtreeStore) (j : Bytes) (leaf : ℕ) (body : Bytes)
      (entries : List (Bytes × Bytes)) (next_leaf : ℕ)
      → s.is_open ≡ true
      → s.is_closed ≡ false
      → s.root_page_id ≢ sentinel
      → Route crc32 s.pg j leaf body n s.root_page_id
      → IsSmallLeaf body entries next_leaf
      → get crc32 none (suc n) s j ≡ (s, found (find j entries))
  unfolding get
  get-Route n s j leaf body entries next_leaf o c rooted route l =
      check_open-pass s _ o c
      ∙ ap
          (λ b.
            if b
            then (s, err key_not_found)
            else with_pages s (search crc32 none (suc n) s.root_page_id j s.pg))
          (==_ne s.root_page_id sentinel rooted)
      ∙ ap (with_pages s) (
          search-Route crc32 s.pg j leaf body n s.root_page_id route
          ∙ search_leaf-small crc32 j s.pg body entries next_leaf l)

-- The store with another pager.
abbrev pub with_pager : BtreeStore → FilePager → BtreeStore
with_pager s q = record s { pg = q }

-- From `s` to `t` one leaf was written: the keys that belong there are looked up in the new entries, and
-- every other key is routed to the leaf that it was routed to, with the body that it had.
pub record IsUpdated (crc32 : List ℕ → ℕ) (s t : BtreeStore) (n leaf : ℕ) (old : Bytes)
    (lookup : Bytes → Option Bytes) : Type 0 where
  pub looks_up :
      (j : Bytes)
      → Route crc32 s.pg j leaf old n s.root_page_id
      → get crc32 none (suc n) t j ≡ (t, found (lookup j))
  pub others :
      (j : Bytes) (other : ℕ) (body : Bytes)
      → leaf ≢ other
      → Route crc32 s.pg j other body n s.root_page_id
      → Route crc32 t.pg j other body n t.root_page_id
