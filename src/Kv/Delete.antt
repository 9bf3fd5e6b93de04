-- ===== src/Kv/Delete.antt =====
-- btree.go: Delete.
use plomvix.Base.{ℕ, zero, suc, List, ◌==◌, if◌then◌else◌, Option, none, some, ok}
use plomvix.Pager
use plomvix.Pager.{sentinel}
use plomvix.Kv.{Bytes, stuck, tree_corrupt, node_type_leaf, node_type_internal}
use plomvix.Kv.Node.{first_byte, encode_leaf_node, decode_leaf_node, decode_internal_node}
use plomvix.Kv.Pages.{M, done, fail, lift, ◌>>=◌, read, write, in_tx}
use plomvix.Kv.Search.{BtreeStore, Outcome, check_open, with_pages, upper_bound, find}
use plomvix.Kv.Leaves.{delete_entry}

module _ (crc32 : List ℕ → ℕ) (ctx : Option Pager.Error) where
  -- What deleteFromTree does with a leaf's entries, by what its search for the key gives.
  unfoldable pub delete_from_entries :
      ℕ → List (Bytes × Bytes) → ℕ → Bytes → Option Bytes → M (Unit {0})
  delete_from_entries page_id entries next_leaf k none = done tt
  delete_from_entries page_id entries next_leaf k (some old) = do
    leaf_body ← lift (encode_leaf_node (delete_entry k entries) next_leaf)
    in_tx crc32 ctx (write crc32 ctx page_id leaf_body)

  -- deleteFromTree at a leaf.
  unfoldable pub delete_from_leaf : ℕ → Bytes → Bytes → M (Unit {0})
  delete_from_leaf page_id body k = lift (decode_leaf_node body) >>= λ leaf.
      delete_from_entries page_id (leaf.0) (leaf.1) k (find k (leaf.0))

  -- deleteFromTree, with the rounds of its recursion.
  unfoldable pub delete_from_tree : ℕ → ℕ → Bytes → M (Unit {0})
  delete_from_tree zero page_id k = fail stuck
  delete_from_tree (suc rounds) page_id k = read crc32 ctx page_id >>= λ body.
      let inner : M (Unit {0}) = lift (decode_internal_node body) >>= λ node.
      delete_from_tree rounds (upper_bound (node.0) (node.1) k) k in
      if first_byte body == node_type_leaf
      then delete_from_leaf page_id body k
      else (if first_byte body == node_type_internal then inner else fail tree_corrupt)

  -- Delete
  unfoldable pub delete : ℕ → BtreeStore → Bytes → Outcome (Unit {0})
  delete rounds s k = check_open s (
      if s.root_page_id == sentinel
      then (s, ok tt)
      else with_pages s (delete_from_tree rounds s.root_page_id k s.pg))
