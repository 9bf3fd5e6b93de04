-- ===== src/Kv/Compact.antt =====
-- btree.go: Compact.
use plomvix.Base.{
  ℕ, zero, suc, ◌+◌, ◌-◌, ◌*◌, List, [], ◌∷◌, ◌++◌, length, take, drop, ◌==◌, leb, if◌then◌else◌,
  Option, none, some, Result, ok, err,
}
use plomvix.Pager
use plomvix.Pager.{sentinel}
use plomvix.Pager.FilePager.{FilePager}
use plomvix.Kv.{
  Bytes, Error, tree_corrupt, stuck, panicked, meta_page_id, max_leaf_keys, max_internal_keys,
}
use plomvix.Kv.Node.{encode_meta_page, encode_leaf_node, encode_internal_node}
use plomvix.Kv.Pages.{M, done, fail, lift, ◌>>=◌, ◌>>◌, read, write, allocate, in_tx}
use plomvix.Kv.Search.{BtreeStore, Outcome, check_open, with_root}
use plomvix.Kv.Set.{prepare}
use plomvix.Kv.Scan.{scan_all}
use plomvix.Kv.Free.{free_tree_pages}

-- A list in pieces of `size`; `n` is at least their number.
unfoldable pub chunks : {A : Type 0} → ℕ → ℕ → List A → List (List A)
chunks zero size xs = []
chunks (suc n) size [] = []
chunks (suc n) size (x ∷ xs) = take size (x ∷ xs) ∷ chunks n size (drop size (x ∷ xs))

-- entries[i].Key
abbrev pub key_at : ℕ → List (Bytes × Bytes) → Option Bytes
key_at i [] = none
key_at zero ((k, v) ∷ entries) = some k
key_at (suc i) ((k, v) ∷ entries) = key_at i entries

-- The separators of an internal node whose first child stands at `start` of its level: the key at
-- firstIdx before each of the other children.
unfoldable pub separators : List (Bytes × Bytes) → ℕ → ℕ → List ℕ → M (List (Bytes × ℕ))
separators entries start j [] = done []
separators entries start j (c ∷ children) =
    let index = start + suc j * max_leaf_keys in
    let first_idx = if leb (length entries) index then length entries - 1 else index in
    elim (key_at first_idx entries) [
      | none ↦ fail panicked
      | some k ↦ (separators entries start (suc j) children >>= λ rest. done ((k, c) ∷ rest))
    ]

abbrev ids : List (ℕ × Bytes) → List ℕ
ids [] = []
ids ((id, body) ∷ pages) = id ∷ ids pages

-- The validation's error, whatever the read's is.
abbrev as_corrupt : {A : Type 0} → FilePager × Result Error A → FilePager × Result Error A
as_corrupt (pg, ok a) = (pg, ok a)
as_corrupt (pg, err e) = (pg, err tree_corrupt)

module _ (crc32 : List ℕ → ℕ) (ctx : Option Pager.Error) where
  -- The values of a leaf as it stores them. The pages that prepareOverflow gives are not kept.
  unfoldable pub pack_values : List (Bytes × Bytes) → M (List (Bytes × Bytes))
  pack_values [] = done []
  pack_values ((k, v) ∷ entries) = do
    p ← prepare crc32 ctx v
    rest ← pack_values entries
    done ((k, p.1) ∷ rest)

  -- The first loop over the leaves: their pages, each encoded with no next leaf.
  unfoldable pub allocate_leaves : List (List (Bytes × Bytes)) → M (List (ℕ × Bytes))
  allocate_leaves [] = done []
  allocate_leaves (chunk ∷ rest) = do
    entries ← pack_values chunk
    id ← allocate crc32 ctx
    body ← lift (encode_leaf_node entries sentinel)
    leaves ← allocate_leaves rest
    done ((id, body) ∷ leaves)

  -- The second: all but the last are encoded again with the next leaf's page.
  unfoldable pub chain_leaves :
      List (List (Bytes × Bytes)) → List (ℕ × Bytes) → M (List (ℕ × Bytes))
  chain_leaves (chunk ∷ rest) ((id, body) ∷ ((next, b) ∷ leaves)) = do
    entries ← pack_values chunk
    linked ← lift (encode_leaf_node entries next)
    chained ← chain_leaves rest ((next, b) ∷ leaves)
    done ((id, linked) ∷ chained)
  chain_leaves chunks leaves = done leaves

  -- The loop over the internal nodes of one level; `start` is the index of the first child.
  unfoldable pub build_level : List (Bytes × Bytes) → ℕ → List (List ℕ) → M (List (ℕ × Bytes))
  build_level entries start [] = done []
  build_level entries start ([] ∷ groups) = fail panicked
  build_level entries start ((c ∷ children) ∷ groups) = do
    routes ← separators entries start 0 children
    id ← allocate crc32 ctx
    body ← lift (encode_internal_node c routes)
    nodes ← build_level entries (start + suc max_internal_keys) groups
    done ((id, body) ∷ nodes)

  -- The loop over the levels: the root and the pages of the internal nodes.
  unfoldable pub build_levels : ℕ → List (Bytes × Bytes) → List ℕ → M (ℕ × List (ℕ × Bytes))
  build_levels rounds entries [] = fail panicked
  build_levels rounds entries (root ∷ []) = done (root, [])
  build_levels zero entries (a ∷ (b ∷ level)) = fail stuck
  build_levels (suc rounds) entries (a ∷ (b ∷ level)) = do
    nodes ←
        build_level entries 0
          (chunks (length (a ∷ (b ∷ level))) (suc max_internal_keys) (a ∷ (b ∷ level)))
    above ← build_levels rounds entries (ids nodes)
    done (above.0, nodes ++ above.1)

  -- The loop that writes the new pages, outside a transaction.
  unfoldable pub write_new_pages : List (ℕ × Bytes) → M (Unit {0})
  write_new_pages [] = done tt
  write_new_pages ((id, body) ∷ pages) = do write crc32 ctx id body; write_new_pages pages

  -- The new tree over the entries of the old one: its root.
  unfoldable pub rebuild : ℕ → List (Bytes × Bytes) → M ℕ
  rebuild rounds entries = do
    allocated ← allocate_leaves (chunks (length entries) max_leaf_keys entries)
    leaves ← chain_leaves (chunks (length entries) max_leaf_keys entries) allocated
    built ← build_levels rounds entries (ids leaves)
    write_new_pages (leaves ++ built.1)
    body ← (λ pg. as_corrupt (read crc32 ctx (built.0) pg))
    done (built.0)

  -- The root after Compact, once the meta page has it: none over no entries.
  unfoldable pub new_root : ℕ → ℕ → M ℕ
  new_root rounds root = do
    entries ← scan_all crc32 ctx rounds root
    fresh ← (if length entries == 0 then done sentinel else rebuild rounds entries)
    in_tx crc32 ctx (write crc32 ctx meta_page_id (encode_meta_page fresh))
    done fresh

  -- The pages of the old tree are freed where the root was changed.
  abbrev freeing : ℕ → ℕ → FilePager × Result Error ℕ → FilePager × Result Error ℕ
  freeing rounds old (pg, ok root) = (free_tree_pages crc32 ctx rounds old pg, ok root)
  freeing rounds old (pg, err e) = (pg, err e)

  -- Compact
  unfoldable pub compact : ℕ → BtreeStore → Outcome (Unit {0})
  compact rounds s =
      let freed : FilePager × Result Error ℕ → Outcome (Unit {0}) =
        λ o. with_root s (freeing rounds s.root_page_id o) in
      check_open s (
        if s.root_page_id == sentinel
        then (s, ok tt)
        else freed (new_root rounds s.root_page_id s.pg))
