-- ===== src/Kv/Set.antt =====
-- btree.go: Set.
use plomvix.Base.{
  ℕ, zero, suc, ◌+◌, ◌-◌, ◌/◌, Bool, true, false, List, [], ◌∷◌, ◌++◌, length, take, drop, ◌==◌,
  ltb, leb, if◌then◌else◌, Option, none, some, ok, err,
}
use plomvix.Base.Bytes.{put_be}
use plomvix.Pager
use plomvix.Pager.{sentinel}
use plomvix.Pager.FilePager.{FilePager}
use plomvix.Kv.{
  Bytes, stuck, key_too_large, value_too_large, tree_corrupt, panicked, node_type_leaf,
  node_type_internal, meta_page_id, max_key_size, max_val_size, max_val_size_enterprise,
  max_leaf_keys, max_internal_keys,
}
use plomvix.Kv.Node.{
  first_byte, encode_meta_page, encode_leaf_node, decode_leaf_node, encode_internal_node,
  decode_internal_node, encode_overflow_page, overflow_chunk_size,
}
use plomvix.Kv.Pages.{M, done, fail, lift, check, ◌>>=◌, ◌>>◌, read, write, allocate, in_tx}
use plomvix.Kv.Search.{BtreeStore, Outcome, check_open, with_root, upper_bound_idx, find}
use plomvix.Kv.Leaves.{insert_entry, merge_entry, update_entry, halves, insert_route, split_routes}

-- pathEntry
pub record PathEntry : Type 0 where
  pub page_id : ℕ
  pub child_idx : ℕ
  pub first : ℕ
  pub entries : List (Bytes × ℕ)

-- The overflow pages that a value needs.
unfoldable pub num_overflow : Bytes → ℕ
num_overflow v = (length v - 504 + overflow_chunk_size - 1) / overflow_chunk_size

-- childPtrs[childIdx], over the first child and the routes behind it.
abbrev pub child_at : ℕ → ℕ → List (Bytes × ℕ) → ℕ
child_at zero first entries = first
child_at (suc i) first [] = first
child_at (suc i) first ((j, c) ∷ entries) = child_at i c entries

-- The first of the pages of a chain, or what stands for none.
abbrev pub first_or : ℕ → List ℕ → ℕ
first_or d [] = d
first_or d (id ∷ ids) = id

module _ (crc32 : List ℕ → ℕ) (ctx : Option Pager.Error) where
  -- The allocations of prepareOverflow, up to the first that fails, and whether none did.
  unfoldable pub allocate_overflow : ℕ → FilePager → FilePager × (List ℕ × Bool)
  allocate_overflow zero pg = (pg, ([], true))
  allocate_overflow (suc n) pg =
      let (q, r) = allocate crc32 ctx pg in
      elim r [
        | ok id ↦ (let (after, (ids, full)) = allocate_overflow n q in (after, (id ∷ ids, full)))
        | err e ↦ (q, ([], false))
      ]

  -- prepareOverflow
  unfoldable pub prepare_overflow : Bytes → M (List ℕ × Bytes)
  prepare_overflow v pg =
      let (q, (ids, full)) = allocate_overflow (num_overflow v) pg in
      (q, ok (ids, if full then put_be 8 (first_or 0 ids) ++ v else []))

  -- What Set does for a value before it looks at the tree.
  abbrev pub prepare : Bytes → M (List ℕ × Bytes)
  prepare v = if ltb max_val_size (length v) then prepare_overflow v else done ([], v)

  -- The loop of writeOverflowChain.
  unfoldable pub write_chunks : List ℕ → Bytes → M (Unit {0})
  write_chunks [] remaining = done tt
  write_chunks (id ∷ ids) remaining = do
    body ← lift (encode_overflow_page (first_or sentinel ids) (take overflow_chunk_size remaining))
    write crc32 ctx id body
    write_chunks ids (drop overflow_chunk_size remaining)

  -- writeOverflowChain
  abbrev pub write_overflow_chain : List ℕ → Bytes → M (Unit {0})
  write_overflow_chain ids v = write_chunks ids (drop 504 v)

  -- writeOverflowChainFull on packedVal[8:], where there are pages to write.
  abbrev pub write_packed_chain : List ℕ → Bytes → M (Unit {0})
  write_packed_chain [] packed = done tt
  write_packed_chain (id ∷ ids) packed = do
    check (leb 8 (length packed)) panicked
    write_overflow_chain (id ∷ ids) (drop 8 packed)

  -- The end of updateLeaf and insertIntoLeaf: the leaf's new entries are encoded and written.
  unfoldable pub store_leaf : ℕ → List (Bytes × Bytes) → ℕ → List ℕ → Bytes → M ℕ
  store_leaf page_id entries next_leaf ids packed = do
    body ← lift (encode_leaf_node entries next_leaf)
    in_tx crc32 ctx (do write_packed_chain ids packed; write crc32 ctx page_id body)
    done 0

  -- insertIntoParent, with splitInternal and insertIntoInternal, over the path from its last entry;
  -- the new root, or 0.
  unfoldable pub insert_into_parent : List PathEntry → ℕ → ℕ → Bytes → List ℕ → M ℕ
  insert_into_parent [] left right sep [] = fail tree_corrupt
  insert_into_parent [] left right sep (new_root ∷ new_pages) = do
    body ← lift (encode_internal_node left ((sep, right) ∷ []))
    write crc32 ctx new_root body
    write crc32 ctx meta_page_id (encode_meta_page new_root)
    done new_root
  insert_into_parent (parent ∷ path) left right sep new_pages =
      let routes = insert_route parent.child_idx left sep right (parent.first, parent.entries) in
      let above : ℕ → List ℕ → Bytes → M ℕ = λ new_internal rest middle.
        insert_into_parent path parent.page_id new_internal middle rest in
      let split : M ℕ = elim new_pages [
        | [] ↦ fail tree_corrupt
        | new_internal ∷ rest ↦ (elim (split_routes (routes.1)) [
          | none ↦ fail panicked
          | some halved ↦ (do
            left_body ← lift (encode_internal_node (routes.0) halved.left_entries)
            write crc32 ctx parent.page_id left_body
            right_body ← lift (encode_internal_node halved.right_first halved.right_entries)
            write crc32 ctx new_internal right_body
            above new_internal rest halved.middle_key)
        ])
      ] in
      if ltb (length parent.entries) max_internal_keys
      then (do
        body ← lift (encode_internal_node (routes.0) (routes.1))
        write crc32 ctx parent.page_id body
        done 0)
      else split

  -- The pages for a new root and for the splits of internal nodes.
  unfoldable pub allocate_pages : ℕ → M (List ℕ)
  allocate_pages zero = done []
  allocate_pages (suc n) = do id ← allocate crc32 ctx; ids ← allocate_pages n; done (id ∷ ids)

  -- splitLeaf, over the halves of the entries and the new one.
  unfoldable pub split_leaf :
      ℕ → List PathEntry → List (Bytes × Bytes) × List (Bytes × Bytes) → ℕ → List ℕ → Bytes → M ℕ
  split_leaf leaf_id path (left, right) next_leaf ids packed = do
    new_leaf ← allocate crc32 ctx
    new_pages ← allocate_pages (suc (length path))
    in_tx crc32 ctx (do
      write_packed_chain ids packed
      left_body ← lift (encode_leaf_node left new_leaf)
      write crc32 ctx leaf_id left_body
      right_body ← lift (encode_leaf_node right next_leaf)
      write crc32 ctx new_leaf right_body
      elim right [
        | [] ↦ fail panicked
        | (sep, v) ∷ entries ↦ insert_into_parent path leaf_id new_leaf sep new_pages
      ])

  -- What setInTree does with a leaf's entries, by what its search for the key gives.
  unfoldable pub set_in_entries :
      ℕ → List PathEntry → List (Bytes × Bytes) → ℕ → Bytes → List ℕ → Bytes → Option Bytes → M ℕ
  set_in_entries page_id path entries next_leaf k ids packed (some old) =
      store_leaf page_id (update_entry k packed entries) next_leaf ids packed
  set_in_entries page_id path entries next_leaf k ids packed none =
      if ltb (length entries) max_leaf_keys
      then store_leaf page_id (insert_entry k packed entries) next_leaf ids packed
      else split_leaf page_id path (halves (merge_entry k packed entries)) next_leaf ids packed

  -- setInTree at a leaf.
  unfoldable pub set_in_leaf : ℕ → List PathEntry → Bytes → Bytes → List ℕ → Bytes → M ℕ
  set_in_leaf page_id path body k ids packed = lift (decode_leaf_node body) >>= λ leaf.
      set_in_entries page_id path (leaf.0) (leaf.1) k ids packed (find k (leaf.0))

  -- The loop of setInTree.
  unfoldable pub set_from : ℕ → List PathEntry → ℕ → Bytes → List ℕ → Bytes → M ℕ
  set_from zero path page_id k ids packed = fail stuck
  set_from (suc rounds) path page_id k ids packed = read crc32 ctx page_id >>= λ body.
      let inner : M ℕ = lift (decode_internal_node body) >>= λ node.
      let step : PathEntry = record {
        page_id = page_id;
        child_idx = upper_bound_idx (node.1) k;
        first = node.0;
        entries = node.1;
      } in
      set_from rounds (step ∷ path) (child_at step.child_idx (node.0) (node.1)) k ids packed in
      if first_byte body == node_type_leaf
      then set_in_leaf page_id path body k ids packed
      else (if first_byte body == node_type_internal then inner else fail tree_corrupt)

  -- setInTree
  unfoldable pub set_in_tree : ℕ → ℕ → Bytes → Bytes → M ℕ
  set_in_tree rounds root k v = prepare v >>= λ p. set_from rounds [] root k (p.0) (p.1)

  -- setInEmpty: the new root.
  unfoldable pub set_in_empty : Bytes → Bytes → M ℕ
  set_in_empty k v = prepare v >>= λ p. do
    leaf_id ← allocate crc32 ctx
    in_tx crc32 ctx (do
      write_overflow_chain (p.0) v
      body ← lift (encode_leaf_node ((k, p.1) ∷ []) sentinel)
      write crc32 ctx leaf_id body
      write crc32 ctx meta_page_id (encode_meta_page leaf_id))
    done leaf_id

  -- Set
  unfoldable pub set : ℕ → BtreeStore → Bytes → Bytes → Outcome (Unit {0})
  set rounds s k v =
      let in_tree : M ℕ = set_in_tree rounds s.root_page_id k v >>= λ root.
      done (if root == 0 then s.root_page_id else root) in
      if ltb max_key_size (length k)
      then (s, err key_too_large)
      else (if ltb max_val_size_enterprise (length v)
          then (s, err value_too_large)
          else check_open s (
              with_root s
                (if s.root_page_id == sentinel then set_in_empty k v s.pg else in_tree s.pg)))
