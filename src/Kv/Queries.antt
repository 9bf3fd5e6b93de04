-- ===== src/Kv/Queries.antt =====
-- That Get and Scan change nothing, and the length of a large value that is read.
use plomvix.Base.{
  ℕ, zero, suc, ◌≡◌, refl, ap, ◌∙◌, Bool, true, false, List, [], ◌∷◌, length, Option, none, some,
  Result, ok, err, ◌==◌, if◌then◌else◌,
}
use plomvix.Pager
use plomvix.Pager.{sentinel}
use plomvix.Pager.FilePager.{FilePager, contains, page_count_of, check_state, guard}
use plomvix.Kv.{
  Bytes, Error, closed, not_open, key_not_found, tree_corrupt, stuck, node_type_leaf,
  node_type_internal,
}
use plomvix.Kv.Node.{LeafValueRef, first_byte, decode_internal_node}
use plomvix.Kv.Pages.{M, and_then, done, fail, lift, wrap, ◌>>=◌, read}
use plomvix.Kv.Store.{read_page_keeps}
use plomvix.Kv.Search.{
  BtreeStore, check_open, with_pages, find, is_end, upper_bound, read_chain, read_overflow_value,
  read_value, search_leaf, search, get,
}
use plomvix.Kv.Scan.{below, past, scan_entries, scan_leaf, scan_from, scan}

-- A call that leaves the pager as it is, whatever comes of it.
pub record Keeps {A : Type 0} (m : M A) : Type 0 where
  pub kept : (p : FilePager) → (m p).0 ≡ p

done-Keeps : {A : Type 0} (a : A) → Keeps (done a)
done-Keeps a = record { kept = λ p. refl }

lift-Keeps : {A : Type 0} (r : Result Error A) → Keeps (lift r)
lift-Keeps r = record { kept = λ p. refl }

fail-Keeps : (A : Type 0) (e : Error) → Keeps (fail {A = A} e)
fail-Keeps A e = record { kept = λ p. refl }

then-Keeps :
    {A B : Type 0} (m : M A) (f : A → M B) → Keeps m → ((a : A) → Keeps (f a)) → Keeps (m >>= f)
then-Keeps {A = A} m f h g = record { kept = λ p. next p (m p) (h.kept p) }
  where
    next : (p : FilePager) (o : FilePager × Result Error A) → o.0 ≡ p → (and_then o f).0 ≡ p
    next p (q, ok a) e = (g a).kept q ∙ e
    next p (q, err e1) e = e

if-Keeps : {A : Type 0} (b : Bool) (m n : M A) → Keeps m → Keeps n → Keeps (if b then m else n)
if-Keeps true m n h g = h
if-Keeps false m n h g = g

wrap-Keeps : {A : Type 0} (p : FilePager) (o : Pager.FilePager.Outcome A) → o.0 ≡ p → (wrap o).0 ≡ p
wrap-Keeps p (q, ok a) h = h
wrap-Keeps p (q, err e) h = h

module _ (crc32 : List ℕ → ℕ) (ctx : Option Pager.Error) where
  read-Keeps : (id : ℕ) → Keeps (read crc32 ctx id)
  read-Keeps id = record {
    kept = λ p. wrap-Keeps p _ (ap (λ o. o.0) (read_page_keeps crc32 ctx p id));
  }

  read_chain-Keeps :
      (left total id : ℕ) (buf : Bytes) → Keeps (read_chain crc32 ctx left total id buf)
  unfolding read_chain
  read_chain-Keeps zero total id buf =
      if-Keeps (is_end id) _ _ (if-Keeps _ _ _ (done-Keeps buf) (fail-Keeps _ tree_corrupt))
        (fail-Keeps _ tree_corrupt)
  read_chain-Keeps (suc left) total id buf =
      if-Keeps (is_end id) _ _ (if-Keeps _ _ _ (done-Keeps buf) (fail-Keeps _ tree_corrupt)) (
        then-Keeps _ _ (read-Keeps id) (λ body.
          then-Keeps _ _ (lift-Keeps _)
            (λ (page : ℕ × Bytes). read_chain-Keeps left total (page.0) _)))

  read_value-Keeps : (ref : LeafValueRef) → Keeps (read_value crc32 ctx ref)
  unfolding read_overflow_value
  read_value-Keeps ref = if-Keeps (ref.has_overflow) _ _ (read_chain-Keeps _ _ _ _) (done-Keeps _)

  search_leaf-Keeps : (body k : Bytes) → Keeps (search_leaf crc32 ctx body k)
  unfolding search_leaf
  search_leaf-Keeps body k =
      then-Keeps _ _ (lift-Keeps _)
        (λ (leaf : List (Bytes × LeafValueRef) × ℕ). entry (find k (leaf.0)))
    where
      entry :
          (o : Option LeafValueRef)
          → Keeps (elim o as (λ x. M Bytes) [
            | none ↦ fail key_not_found
            | some ref ↦ read_value crc32 ctx ref
          ])
      entry none = fail-Keeps _ key_not_found
      entry (some ref) = read_value-Keeps ref

  search-Keeps : (rounds id : ℕ) (k : Bytes) → Keeps (search crc32 ctx rounds id k)
  unfolding search
  search-Keeps zero id k = fail-Keeps _ stuck
  search-Keeps (suc rounds) id k = then-Keeps _ _ (read-Keeps id) (λ body.
      if-Keeps (first_byte body == node_type_leaf) _ _ (search_leaf-Keeps body k) (
        if-Keeps (first_byte body == node_type_internal) _ _
          (then-Keeps _ _ (lift-Keeps (decode_internal_node body)) (λ (node : ℕ × List (Bytes × ℕ)).
            search-Keeps rounds (upper_bound (node.0) (node.1) k) k))
          (fail-Keeps _ tree_corrupt)))

  scan_entries-Keeps :
      (start end : Bytes) (entries : List (Bytes × LeafValueRef))
      → Keeps (scan_entries crc32 ctx start end entries)
  unfolding scan_entries
  scan_entries-Keeps start end [] = done-Keeps _
  scan_entries-Keeps start end ((k, ref) ∷ entries) =
      if-Keeps (below start k) _ _ (scan_entries-Keeps start end entries) (
        if-Keeps (past end k) _ _ (done-Keeps _) (
          then-Keeps _ _ (read_value-Keeps ref)
            (λ v. then-Keeps _ _ (scan_entries-Keeps start end entries) (λ rest. done-Keeps _))))

  scan_leaf-Keeps :
      (rounds id : ℕ) (start end : Bytes) → Keeps (scan_leaf crc32 ctx rounds id start end)
  unfolding scan_leaf
  scan_leaf-Keeps zero id start end = if-Keeps (is_end id) _ _ (done-Keeps []) (fail-Keeps _ stuck)
  scan_leaf-Keeps (suc rounds) id start end = if-Keeps (is_end id) _ _ (done-Keeps []) (
      then-Keeps _ _ (read-Keeps id) (λ body.
        then-Keeps _ _ (lift-Keeps _) (λ (leaf : List (Bytes × LeafValueRef) × ℕ).
          then-Keeps _ _ (scan_entries-Keeps start end (leaf.0))
            (λ (found : List (Bytes × Bytes) × Bool). if-Keeps (found.1) _ _ (done-Keeps _) (
              then-Keeps _ _ (scan_leaf-Keeps rounds (leaf.1) start end) (λ rest. done-Keeps _))))))

  scan_from-Keeps :
      (rounds id : ℕ) (start end : Bytes) → Keeps (scan_from crc32 ctx rounds id start end)
  unfolding scan_from
  scan_from-Keeps zero id start end = fail-Keeps _ stuck
  scan_from-Keeps (suc rounds) id start end = then-Keeps _ _ (read-Keeps id) (λ body.
      if-Keeps (first_byte body == node_type_leaf) _ _ (scan_leaf-Keeps (suc rounds) id start end) (
        if-Keeps (first_byte body == node_type_internal) _ _
          (then-Keeps _ _ (lift-Keeps (decode_internal_node body)) (λ (node : ℕ × List (Bytes × ℕ)).
            scan_from-Keeps rounds
              (if length start == 0 then node.0 else upper_bound (node.0) (node.1) start) start
              end))
          (fail-Keeps _ tree_corrupt)))

-- A query of a store whose pager it leaves.
query-Keeps :
    {A : Type 0} (s : BtreeStore) (b : Bool) (early : Result Error A) (m : M A)
    → Keeps m
    → (check_open s (if b then (s, early) else with_pages s (m s.pg))).0 ≡ s
query-Keeps {A = A} s b early m h = split s.is_closed s.is_open b
  where
    split :
        (x y z : Bool)
        → (if x
            then (s, err closed)
            else (if y
                then (if z then (s, early) else with_pages s (m s.pg))
                else (s, err not_open))).0
          ≡ s
    split true y z = refl
    split false false z = refl
    split false true true = refl
    split false true false = pages (m s.pg) (h.kept s.pg)
      where
        pages : (o : FilePager × Result Error A) → o.0 ≡ s.pg → (with_pages s o).0 ≡ s
        pages (q, r) e = ap (λ x. record s { pg = x }) e

-- Get and Scan leave the store as it is, in every state of it and of its pages, whether they succeed or
-- fail.
pub queries-keep :
    (crc32 : List ℕ → ℕ) (ctx : Option Pager.Error) (rounds : ℕ) (s : BtreeStore)
    (k start end : Bytes)
    → ((get crc32 ctx rounds s k).0 ≡ s) × ((scan crc32 ctx rounds s start end).0 ≡ s)
unfolding get scan
queries-keep crc32 ctx rounds s k start end = (
  query-Keeps s _ _ _ (search-Keeps crc32 ctx rounds s.root_page_id k),
  query-Keeps s _ _ _ (scan_from-Keeps crc32 ctx rounds s.root_page_id start end),
)

-- A call that gives only values that satisfy P.
record Gives {A : Type 0} (P : A → Type 0) (m : M A) : Type 0 where
  pub gives : (p q : FilePager) (a : A) → m p ≡ (q, ok a) → P a
