-- ===== src/Kv/Check.antt =====
-- btree.go: Check.
use plomvix.Base.{
  ℕ, zero, suc, ◌+◌, Bool, true, not, ◌||◌, List, [], ◌∷◌, map, length, ◌==◌, leb, if◌then◌else◌,
  Option, none, some, Result, ok, err,
}
use plomvix.Pager
use plomvix.Pager.{sentinel}
use plomvix.Pager.FilePager.{contains}
use plomvix.Kv.{
  Bytes, Error, stuck, tree_corrupt, node_type_leaf, node_type_internal, max_overflow_chain_len,
  less, ascending,
}
use plomvix.Kv.Node.{
  LeafValueRef, first_byte, decode_leaf_node_refs, decode_internal_node, decode_overflow_page,
}
use plomvix.Kv.Pages.{M, done, fail, lift, check, ◌>>=◌, ◌>>◌, read, count_pages}
use plomvix.Kv.Search.{BtreeStore, Outcome, check_open, with_pages, is_end}

-- An error of a node's decoding, which Check reports as a corrupt tree.
abbrev pub as_corrupt : {A : Type 0} → Result Error A → Result Error A
as_corrupt (ok a) = ok a
as_corrupt (err e) = err tree_corrupt

-- Whether a leaf's first key is not less than the separator to its left.
abbrev pub not_before : Option Bytes → List Bytes → Bool
not_before none keys = true
not_before (some prev) [] = true
not_before (some prev) (k ∷ keys) = not (less k prev)

module _ (crc32 : List ℕ → ℕ) (ctx : Option Pager.Error) where
  -- The range and the visited set at a page.
  abbrev pub visit : ℕ → ℕ → List ℕ → M (List ℕ)
  visit page_count page_id visited = do
    check (not (leb page_count page_id)) tree_corrupt
    check (not (contains page_id visited)) tree_corrupt
    done (page_id ∷ visited)

  -- The loop of checkOverflowChain; `left` is the pages that the chain may still have.
  unfoldable pub check_chain : ℕ → ℕ → ℕ → ℕ → ℕ → List ℕ → M (List ℕ)
  check_chain zero page_count total buf_len page_id visited =
      if is_end page_id
      then (if buf_len == total then done visited else fail tree_corrupt)
      else fail tree_corrupt
  check_chain (suc left) page_count total buf_len page_id visited =
      let more : M (List ℕ) = visit page_count page_id visited >>= λ seen.
      read crc32 ctx page_id >>= λ body. lift (decode_overflow_page body) >>= λ page.
      check_chain left page_count total (buf_len + length (page.1)) (page.0) seen in
      if is_end page_id
      then (if buf_len == total then done visited else fail tree_corrupt)
      else more

  -- checkOverflowChain
  unfoldable pub check_overflow_chain : ℕ → LeafValueRef → List ℕ → M (List ℕ)
  check_overflow_chain page_count ref visited =
      check_chain max_overflow_chain_len page_count ref.total_len (length ref.inline)
        ref.overflow_page_id visited

  unfoldable pub check_refs : ℕ → List (Bytes × LeafValueRef) → List ℕ → M (List ℕ)
  check_refs page_count [] visited = done visited
  check_refs page_count ((k, ref) ∷ entries) visited =
      if ref.has_overflow
      then (check_overflow_chain page_count ref visited >>= λ seen.
          check_refs page_count entries seen)
      else check_refs page_count entries visited

  -- checkNode at a leaf.
  unfoldable pub check_leaf : ℕ → Bytes → Option Bytes → List ℕ → M (List ℕ)
  check_leaf page_count body prev visited = do
    leaf ← lift (as_corrupt (decode_leaf_node_refs body))
    check (ascending (map (λ e. e.0) (leaf.0))) tree_corrupt
    check (not_before prev (map (λ e. e.0) (leaf.0))) tree_corrupt
    seen ← check_refs page_count (leaf.0) visited
    check (is_end (leaf.1) || not (leb page_count (leaf.1))) tree_corrupt
    done seen

  -- The children of an internal node, each with the separator to its left.
  abbrev check_children :
      (ℕ → Option Bytes → List ℕ → M (List ℕ)) → List (Bytes × ℕ) → List ℕ → M (List ℕ)
  check_children node [] visited = done visited
  check_children node ((k, c) ∷ entries) visited =
      node c (some k) visited >>= λ seen. check_children node entries seen

  -- checkNode, with the depth that its recursion may reach.
  unfoldable pub check_node : ℕ → ℕ → ℕ → Option Bytes → List ℕ → M (List ℕ)
  check_node zero page_count page_id prev visited = fail stuck
  check_node (suc depth) page_count page_id prev visited =
      let child : ℕ → Option Bytes → List ℕ → M (List ℕ) =
        λ c p seen. check_node depth page_count c p seen in
      visit page_count page_id visited >>= λ seen. read crc32 ctx page_id >>= λ body.
      (if first_byte body == node_type_leaf
        then check_leaf page_count body prev seen
        else (if first_byte body == node_type_internal
            then (lift (as_corrupt (decode_internal_node body)) >>= λ node.
                check (ascending (map (λ e. e.0) (node.1))) tree_corrupt >>= λ ordered.
                child (node.0) none seen >>= λ first. check_children child (node.1) first)
            else fail tree_corrupt))

  -- Check, which on success gives the pages that it visited here.
  unfoldable pub check_tree : ℕ → BtreeStore → Outcome (List ℕ)
  check_tree depth s = check_open s (
      if s.root_page_id == sentinel
      then (s, ok [])
      else with_pages s ((count_pages >>= λ pc. check_node depth pc s.root_page_id none []) s.pg))
