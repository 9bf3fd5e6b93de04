-- ===== src/Kv/Free.antt =====
-- btree.go: freeTreePages, whose calls of the pager may fail without an error of its own.
use plomvix.Base.{ℕ, zero, suc, ◌||◌, List, [], ◌∷◌, map, ◌==◌, if◌then◌else◌, Option, ok, err}
use plomvix.Pager
use plomvix.Pager.{sentinel}
use plomvix.Pager.FilePager.{FilePager, contains}
use plomvix.Kv.{Bytes, node_type_leaf, node_type_internal}
use plomvix.Kv.Node.{
  LeafValueRef, first_byte, decode_leaf_node_refs, decode_internal_node, decode_overflow_page,
}
use plomvix.Kv.Pages.{read, free}
use plomvix.Kv.Search.{is_end}

-- A pager and the pages visited.
abbrev pub Walk : Type 0
Walk = FilePager × List ℕ

-- The entries of a leaf and the children of an internal node, none where the page is no such node.
abbrev refs_of : Bytes → List (Bytes × LeafValueRef)
refs_of body = elim (decode_leaf_node_refs body) [ ok leaf ↦ leaf.0 | err e ↦ [] ]

abbrev children_of : Bytes → List ℕ
children_of body = elim (decode_internal_node body) [
  | ok node ↦ node.0 ∷ map (λ e. e.1) (node.1)
  | err e ↦ []
]

module _ (crc32 : List ℕ → ℕ) (ctx : Option Pager.Error) where
  -- freeOverflowChain, with the rounds of its loop.
  unfoldable pub free_overflow_chain : ℕ → ℕ → Walk → Walk
  free_overflow_chain zero page_id w = w
  free_overflow_chain (suc rounds) page_id w =
      let (q, r) = read crc32 ctx page_id (w.0) in
      let freed : Walk = elim r [
        | err e ↦ (q, page_id ∷ w.1)
        | ok body ↦ (elim (decode_overflow_page body) [
          | err e ↦ (q, page_id ∷ w.1)
          | ok page ↦
              free_overflow_chain rounds (page.0) ((free crc32 ctx page_id q).0, page_id ∷ w.1)
        ])
      ] in
      if is_end page_id || contains page_id (w.1) then w else freed

  abbrev free_refs : ℕ → List (Bytes × LeafValueRef) → Walk → Walk
  free_refs rounds [] w = w
  free_refs rounds ((k, ref) ∷ entries) w =
      free_refs rounds entries
        (if ref.has_overflow then free_overflow_chain rounds ref.overflow_page_id w else w)

  abbrev free_children : (ℕ → Walk → Walk) → List ℕ → Walk → Walk
  free_children node [] w = w
  free_children node (c ∷ children) w = free_children node children (node c w)

  -- freeNode, with the rounds of its recursion and of the loops along chains.
  unfoldable pub free_node : ℕ → ℕ → Walk → Walk
  free_node zero page_id w = w
  free_node (suc rounds) page_id w =
      let child : ℕ → Walk → Walk = λ c x. free_node rounds c x in
      let (q, r) = read crc32 ctx page_id (w.0) in
      let below : Bytes → Walk = λ body.
        (if first_byte body == node_type_leaf
          then free_refs rounds (refs_of body) (q, page_id ∷ w.1)
          else (if first_byte body == node_type_internal
              then free_children child (children_of body) (q, page_id ∷ w.1)
              else (q, page_id ∷ w.1))) in
      let freed : Walk = elim r [
        | err e ↦ (q, page_id ∷ w.1)
        | ok body ↦ ((free crc32 ctx page_id ((below body).0)).0, (below body).1)
      ] in
      if is_end page_id || contains page_id (w.1) then w else freed

  -- freeTreePages
  unfoldable pub free_tree_pages : ℕ → ℕ → FilePager → FilePager
  free_tree_pages rounds root pg =
      if root == sentinel then pg else (free_node rounds root (pg, [])).0
