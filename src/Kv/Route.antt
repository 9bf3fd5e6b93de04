-- ===== src/Kv/Route.antt =====
-- The way through a tree's pages to the leaf where a key belongs.
use plomvix.Base.{ℕ, suc, ◌≡◌, refl, ap, ◌∙◌, List, [], ◌∷◌, none, ok, Bool-cases, inl, inr}
use plomvix.Pager.FilePager.{FilePager}
use plomvix.Kv.{Bytes, less, node_type_leaf, node_type_internal}
use plomvix.Kv.Node.{first_byte, decode_internal_node}
use plomvix.Kv.Pages.{M, and_then, ◌>>=◌, read}
use plomvix.Kv.Store.{body_at, read-body_at}
use plomvix.Kv.Search.{search, search_leaf, upper_bound, upper_bound_idx}
use plomvix.Kv.Set.{PathEntry, set_from, set_in_leaf, child_at}
use plomvix.Kv.Delete.{delete_from_tree, delete_from_leaf}

-- From a page the nodes route a key to a leaf's page and body, past at most `n` internal nodes.
pub data Route (crc32 : List ℕ → ℕ) (p : FilePager) (k : Bytes) (leaf : ℕ) (body : Bytes)
    : ℕ → ℕ → Type 0 where
  at_leaf :
      (n : ℕ)
      → body_at crc32 p leaf ≡ ok body
      → first_byte body ≡ node_type_leaf
      → Route crc32 p k leaf body n leaf
  below :
      (n page_id : ℕ) (inner : Bytes) (first : ℕ) (entries : List (Bytes × ℕ))
      → body_at crc32 p page_id ≡ ok inner
      → first_byte inner ≡ node_type_internal
      → decode_internal_node inner ≡ ok (first, entries)
      → Route crc32 p k leaf body n (upper_bound first entries k)
      → Route crc32 p k leaf body (suc n) page_id

child_at-upper_bound_idx :
    (first : ℕ) (entries : List (Bytes × ℕ)) (k : Bytes)
    → child_at (upper_bound_idx entries k) first entries ≡ upper_bound first entries k
child_at-upper_bound_idx first [] k = refl
child_at-upper_bound_idx first ((j, c) ∷ entries) k = elim (Bool-cases (less k j)) [
  | inl e ↦ rw e refl
  | inr e ↦ rw e (child_at-upper_bound_idx c entries k)
]

module _ (crc32 : List ℕ → ℕ) (p : FilePager) (k : Bytes) (leaf : ℕ) (body : Bytes) where
  -- A read of a page that is there.
  reads :
      {A : Type 0} (j : ℕ) (b : Bytes) (f : Bytes → M A)
      → body_at crc32 p j ≡ ok b
      → (read crc32 none j >>= f) p ≡ f b p
  reads j b f h = ap (λ o. and_then o f) (read-body_at crc32 p j ∙ ap (λ r. (p, r)) h)

  -- Get, Set and Delete reach the leaf.
  pub search-Route :
      (n page_id : ℕ)
      → Route crc32 p k leaf body n page_id
      → search crc32 none (suc n) page_id k p ≡ search_leaf crc32 none body k p
  unfolding search
  search-Route n page_id (at_leaf _ h t) = reads leaf body _ h ∙ rw t refl
  search-Route (suc n) page_id (below _ _ inner first entries h t d r) =
      reads page_id inner _ h ∙ rw (t, d) (search-Route n (upper_bound first entries k) r)

  pub set_from-Route :
      (ids : List ℕ) (packed : Bytes) (n page_id : ℕ) (path : List PathEntry)
      → Route crc32 p k leaf body n page_id
      → (way : List PathEntry) × (set_from crc32 none (suc n) path page_id k ids packed p
          ≡ set_in_leaf crc32 none leaf way body k ids packed p)
  unfolding set_from
  set_from-Route ids packed n page_id path (at_leaf _ h t) = (path, reads leaf body _ h ∙ rw t refl)
  set_from-Route ids packed (suc n) page_id path (below _ _ inner first entries h t d r) =
      let step : PathEntry = record {
        page_id = page_id;
        child_idx = upper_bound_idx entries k;
        first = first;
        entries = entries;
      } in
      let (way, e) = set_from-Route ids packed n (upper_bound first entries k) (step ∷ path) r in
      (way, reads page_id inner _ h ∙ rw (t, d, child_at-upper_bound_idx first entries k) e)

  pub delete_from_tree-Route :
      (n page_id : ℕ)
      → Route crc32 p k leaf body n page_id
      → delete_from_tree crc32 none (suc n) page_id k p ≡ delete_from_leaf crc32 none leaf body k p
  unfolding delete_from_tree
  delete_from_tree-Route n page_id (at_leaf _ h t) = reads leaf body _ h ∙ rw t refl
  delete_from_tree-Route (suc n) page_id (below _ _ inner first entries h t d r) =
      reads page_id inner _ h ∙ rw (t, d) (delete_from_tree-Route n (upper_bound first entries k) r)
