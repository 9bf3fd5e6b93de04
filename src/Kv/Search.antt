-- ===== src/Kv/Search.antt =====
-- btree.go: the store's state, Open, Close, Get and the reading of large values.
use plomvix.Base.{
  ℕ, zero, suc, ◌-◌, Bool, true, false, ◌||◌, List, [], ◌∷◌, ◌++◌, length, take, ◌==◌,
  if◌then◌else◌, Option, none, some, Result, ok, err,
}
use plomvix.Pager
use plomvix.Pager.{sentinel}
use plomvix.Pager.FilePager.{FilePager}
use plomvix.Kv.{
  Bytes, Error, stuck, key_not_found, tree_corrupt, not_open, closed, node_type_leaf,
  node_type_internal, meta_page_id, max_overflow_chain_len, less, same,
}
use plomvix.Kv.Node.{
  LeafValueRef, first_byte, encode_meta_page, decode_meta_page, decode_leaf_node_refs,
  decode_internal_node, decode_overflow_page,
}
use plomvix.Kv.Pages.{
  M, done, fail, lift, check, ◌>>=◌, ◌>>◌, read, write, allocate, in_tx, count_pages,
}

pub record BtreeStore : Type 0 where
  pub pg : FilePager
  pub is_open : Bool
  pub is_closed : Bool
  pub root_page_id : ℕ

abbrev pub Outcome : Type 0 → Type 0
Outcome A = BtreeStore × Result Error A

-- newBtreeStore
abbrev pub new_btree_store : FilePager → BtreeStore
new_btree_store pg = record { pg = pg; is_open = false; is_closed = false; root_page_id = sentinel }

-- checkOpen
abbrev pub check_open : {A : Type 0} → BtreeStore → Outcome A → Outcome A
check_open s k =
    if s.is_closed then (s, err closed) else (if s.is_open then k else (s, err not_open))

-- Calls of the pager that leave the root as it is, and calls that may give a new one.
abbrev pub with_pages : {A : Type 0} → BtreeStore → FilePager × Result Error A → Outcome A
with_pages s (pg, r) = (record s { pg = pg }, r)

abbrev pub with_root : BtreeStore → FilePager × Result Error ℕ → Outcome (Unit {0})
with_root s (pg, ok root) = (record s { pg = pg; root_page_id = root }, ok tt)
with_root s (pg, err e) = (record s { pg = pg }, err e)

-- upperBound over the first child and the keys with the children to their right.
abbrev pub upper_bound : ℕ → List (Bytes × ℕ) → Bytes → ℕ
upper_bound first [] k = first
upper_bound first ((ik, child) ∷ entries) k =
    if less k ik then first else upper_bound child entries k

-- upperBoundIdx
abbrev pub upper_bound_idx : List (Bytes × ℕ) → Bytes → ℕ
upper_bound_idx [] k = 0
upper_bound_idx ((ik, child) ∷ entries) k = if less k ik then 0 else suc (upper_bound_idx entries k)

-- The loops over a leaf's keys: what stands at the first that equals k.
abbrev pub find : {V : Type 0} → Bytes → List (Bytes × V) → Option V
find k [] = none
find k ((j, v) ∷ entries) = if same j k then some v else find k entries

-- A page id that ends a chain of pages.
abbrev pub is_end : ℕ → Bool
is_end page_id = page_id == sentinel || page_id == 0

module _ (crc32 : List ℕ → ℕ) (ctx : Option Pager.Error) where
  -- The loop of readOverflowValue; `buf` is what is filled of the buffer, `left` the pages that the
  -- chain may still have.
  unfoldable pub read_chain : ℕ → ℕ → ℕ → Bytes → M Bytes
  read_chain zero total page_id buf =
      if is_end page_id
      then (if length buf == total then done buf else fail tree_corrupt)
      else fail tree_corrupt
  read_chain (suc left) total page_id buf =
      let more : M Bytes = read crc32 ctx page_id >>= λ body.
      lift (decode_overflow_page body) >>= λ page.
      read_chain left total (page.0) (buf ++ take (total - length buf) (page.1)) in
      if is_end page_id then (if length buf == total then done buf else fail tree_corrupt) else more

  -- readOverflowValue
  unfoldable pub read_overflow_value : LeafValueRef → M Bytes
  read_overflow_value ref =
      read_chain max_overflow_chain_len ref.total_len ref.overflow_page_id
        (take ref.total_len ref.inline)

  -- The value of a reference.
  abbrev pub read_value : LeafValueRef → M Bytes
  read_value ref = if ref.has_overflow then read_overflow_value ref else done ref.inline

  -- search in a leaf
  unfoldable pub search_leaf : Bytes → Bytes → M Bytes
  search_leaf body k = lift (decode_leaf_node_refs body) >>= λ leaf. elim (find k (leaf.0)) [
    | none ↦ fail key_not_found
    | some ref ↦ read_value ref
  ]

  -- search, with the rounds of its loop.
  unfoldable pub search : ℕ → ℕ → Bytes → M Bytes
  search zero page_id k = fail stuck
  search (suc rounds) page_id k = read crc32 ctx page_id >>= λ body.
      let inner : M Bytes = lift (decode_internal_node body) >>= λ node.
      search rounds (upper_bound (node.0) (node.1) k) k in
      if first_byte body == node_type_leaf
      then search_leaf body k
      else (if first_byte body == node_type_internal then inner else fail tree_corrupt)

  -- Get
  unfoldable pub get : ℕ → BtreeStore → Bytes → Outcome Bytes
  get rounds s k = check_open s (
      if s.root_page_id == sentinel
      then (s, err key_not_found)
      else with_pages s (search rounds s.root_page_id k s.pg))

  -- The pages of a fresh store: the meta page with no root.
  abbrev pub init_meta : M ℕ
  init_meta = do
    id ← allocate crc32 ctx
    check (id == meta_page_id) tree_corrupt
    in_tx crc32 ctx (write crc32 ctx meta_page_id (encode_meta_page sentinel))
    done sentinel

  abbrev pub read_meta : M ℕ
  read_meta = read crc32 ctx meta_page_id >>= λ body. lift (decode_meta_page body)

  -- Open
  unfoldable pub open_store : BtreeStore → Outcome (Unit {0})
  open_store s =
      let opened : FilePager × Result Error ℕ =
        (count_pages >>= λ pc. if pc == meta_page_id then init_meta else read_meta) s.pg in
      let after : Outcome (Unit {0}) = with_root s opened in
      if s.is_closed
      then (s, err closed)
      else (if s.is_open then (s, ok tt) else (elim (after.1) [
        | ok u ↦ (record (after.0) { is_open = true }, ok tt)
        | err e ↦ after
      ]))

-- Close
unfoldable pub close : BtreeStore → BtreeStore
close s = if s.is_closed then s else record s { is_open = false; is_closed = true }
