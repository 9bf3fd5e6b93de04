-- ===== src/Kv/Scan.antt =====
-- btree.go: Scan, scanLeaf and scanAll.
use plomvix.Base.{
  ℕ, zero, suc, Bool, true, false, not, ◌&&◌, List, [], ◌∷◌, ◌++◌, length, ◌==◌, ltb, if◌then◌else◌,
  Option, ok,
}
use plomvix.Pager
use plomvix.Pager.{sentinel}
use plomvix.Kv.{Bytes, stuck, tree_corrupt, node_type_leaf, node_type_internal, less}
use plomvix.Kv.Node.{LeafValueRef, first_byte, decode_leaf_node_refs, decode_internal_node}
use plomvix.Kv.Pages.{M, done, fail, lift, ◌>>=◌, read}
use plomvix.Kv.Search.{BtreeStore, Outcome, check_open, with_pages, upper_bound, is_end, read_value}

-- The lower and the upper bound of a scan, which an empty key is not.
abbrev pub below : Bytes → Bytes → Bool
below start k = ltb 0 (length start) && less k start

abbrev pub past : Bytes → Bytes → Bool
past end k = ltb 0 (length end) && not (less k end)

module _ (crc32 : List ℕ → ℕ) (ctx : Option Pager.Error) where
  -- The entries of a leaf in the range, and whether one is past it.
  unfoldable pub scan_entries :
      Bytes → Bytes → List (Bytes × LeafValueRef) → M (List (Bytes × Bytes) × Bool)
  scan_entries start end [] = done ([], false)
  scan_entries start end ((k, ref) ∷ entries) =
      if below start k
      then scan_entries start end entries
      else (if past end k
          then done ([], true)
          else (read_value crc32 ctx ref >>= λ v.
              scan_entries start end entries >>= λ rest. done ((k, v) ∷ (rest.0), rest.1)))

  -- scanLeaf, with the rounds of its loop over the leaves.
  unfoldable pub scan_leaf : ℕ → ℕ → Bytes → Bytes → M (List (Bytes × Bytes))
  scan_leaf zero page_id start end = if is_end page_id then done [] else fail stuck
  scan_leaf (suc rounds) page_id start end =
      let more : M (List (Bytes × Bytes)) = read crc32 ctx page_id >>= λ body.
      lift (decode_leaf_node_refs body) >>= λ leaf. scan_entries start end (leaf.0) >>= λ found.
      (if found.1
        then done (found.0)
        else (scan_leaf rounds (leaf.1) start end >>= λ rest. done (found.0 ++ rest))) in
      if is_end page_id then done [] else more

  -- The loop of Scan, and of scanAll, which starts at the first child as an unbounded Scan does.
  unfoldable pub scan_from : ℕ → ℕ → Bytes → Bytes → M (List (Bytes × Bytes))
  scan_from zero page_id start end = fail stuck
  scan_from (suc rounds) page_id start end = read crc32 ctx page_id >>= λ body.
      let inner : M (List (Bytes × Bytes)) = lift (decode_internal_node body) >>= λ node.
      scan_from rounds (if length start == 0 then node.0 else upper_bound (node.0) (node.1) start)
        start end in
      if first_byte body == node_type_leaf
      then scan_leaf (suc rounds) page_id start end
      else (if first_byte body == node_type_internal then inner else fail tree_corrupt)

  -- Scan
  unfoldable pub scan : ℕ → BtreeStore → Bytes → Bytes → Outcome (List (Bytes × Bytes))
  scan rounds s start end = check_open s (
      if s.root_page_id == sentinel
      then (s, ok [])
      else with_pages s (scan_from rounds s.root_page_id start end s.pg))

  -- scanAll
  unfoldable pub scan_all : ℕ → ℕ → M (List (Bytes × Bytes))
  scan_all rounds root = scan_from rounds root [] []
