-- ===== src/Kv/Range.antt =====
-- What Scan gives of linked leaves, their values stored in them or along overflow pages.
use plomvix.Base.{
  ◌||◌, ◌==◌, ℕ, zero, suc, ◌≤◌, ◌≡◌, refl, sym, ap, ◌∙◌, Bool, true, false, not, ◌&&◌, List, [],
  ◌∷◌, ◌++◌, length, arith, append-nil, none, ok, ltb, if◌then◌else◌, if_false, if_true, Bool-cases,
  inl, inr,
}
use mathlib.Core.Bool.{true≢false}
use plomvix.Pager.FilePager.{FilePager}
use plomvix.Kv.{Bytes, less}
use plomvix.Kv.Order.{less_trans}
use plomvix.Kv.Node.{LeafValueRef, decode_leaf_node_refs}
use plomvix.Kv.Pages.{M, and_then, done, lift, ◌>>=◌}
use plomvix.Kv.Store.{body_at, read-body_at}
use plomvix.Kv.Search.{is_end, read_value}
use plomvix.Kv.Leaves.Sorted.{Below, IsSorted}
use plomvix.Kv.Leaves.Split.{IsSorted-parts}
use plomvix.Kv.Scan.{below, past, scan_entries, scan_leaf}

-- The entries that a scan takes.
abbrev select : Bytes → Bytes → List (Bytes × Bytes) → List (Bytes × Bytes)
select start end [] = []
select start end ((k, v) ∷ entries) =
    if below start k
    then select start end entries
    else (if past end k then select start end entries else (k, v) ∷ select start end entries)

-- start <= k < end, where an empty key is no bound.
abbrev pub in_range : Bytes → Bytes → Bytes → Bool
in_range start end k = (length start == 0 || not (less k start)) && (length end == 0 || less k end)

-- The entries of which the key is in the range, in their order.
abbrev pub within : Bytes → Bytes → List (Bytes × Bytes) → List (Bytes × Bytes)
within start end [] = []
within start end ((k, v) ∷ entries) =
    if in_range start end k then (k, v) ∷ within start end entries else within start end entries

two_tests :
    {A : Type 0} (n m : ℕ) (a b : Bool) (c r : A)
    → (if ltb 0 n && a then r else (if ltb 0 m && not b then r else c))
      ≡ (if (n == 0 || not a) && (m == 0 || b) then c else r)
two_tests n m true true c r = ground arith
two_tests n m true false c r = ground arith
two_tests n m false true c r = ground arith
two_tests n m false false c r = ground arith

select-within :
    (start end : Bytes) (entries : List (Bytes × Bytes))
    → select start end entries ≡ within start end entries
select-within start end [] = refl
select-within start end ((k, v) ∷ entries) =
    two_tests (length start) (length end) (less k start) (less k end)
      ((k, v) ∷ select start end entries) (select start end entries)
    ∙ ap (λ l. if in_range start end k then (k, v) ∷ l else l) (select-within start end entries)

-- Whether a scan ends at one of these entries.
abbrev stops : Bytes → Bytes → List (Bytes × Bytes) → Bool
stops start end [] = false
stops start end ((k, v) ∷ entries) =
    if below start k
    then stops start end entries
    else (if past end k then true else stops start end entries)

select-append :
    (start end : Bytes) (xs ys : List (Bytes × Bytes))
    → select start end (xs ++ ys) ≡ select start end xs ++ select start end ys
select-append start end [] ys = refl
select-append start end ((k, v) ∷ xs) ys = elim (Bool-cases (below start k)) [
  | inl e ↦ rw e (select-append start end xs ys)
  | inr e ↦ rw e (elim (Bool-cases (past end k)) [
    | inl f ↦ rw f (select-append start end xs ys)
    | inr f ↦ rw f (ap (λ l. (k, v) ∷ l) (select-append start end xs ys))
  ])
]

past_trans : (end k j : Bytes) → past end k ≡ true → less k j ≡ true → past end j ≡ true
past_trans end k j h g =
    behind (ltb 0 (length end)) (less k end) (less j end) h (λ e. less_trans k j end g e)
  where
    behind : (b x y : Bool) → (b && not x) ≡ true → (y ≡ true → x ≡ true) → (b && not y) ≡ true
    behind true x false h f = refl
    behind true false true h f = absurd (true≢false (sym (f refl)))
    behind true true true h f = h
    behind false x y h f = h

-- Behind a key past the range nothing is selected.
select-past :
    (start end k : Bytes) (entries : List (Bytes × Bytes))
    → past end k ≡ true
    → Below k entries
    → select start end entries ≡ []
select-past start end k [] h b = refl
select-past start end k ((j, w) ∷ entries) h b =
    rw (past_trans end k j h (b.0)) (elim (Bool-cases (below start j)) [
      | inl e ↦ rw e (select-past start end k entries h (b.1))
      | inr e ↦ rw e (select-past start end k entries h (b.1))
    ])

select-stops :
    (start end : Bytes) (entries rest : List (Bytes × Bytes))
    → IsSorted (entries ++ rest)
    → stops start end entries ≡ true
    → select start end rest ≡ []
select-stops start end [] rest s h = absurd (true≢false (sym h))
select-stops start end ((k, v) ∷ entries) rest s h = elim (Bool-cases (below start k)) [
  | inl e ↦ select-stops start end entries rest s.1 (sym (if_true (below start k) _ _ e) ∙ h)
  | inr e ↦ (elim (Bool-cases (past end k)) [
    | inl f ↦ select-past start end k rest f (tail_below entries (s.0))
    | inr f ↦
        select-stops start end entries rest s.1
          (sym (if_false (below start k) _ _ e ∙ if_false (past end k) _ _ f) ∙ h)
  ])
]
  where
    tail_below : (es : List (Bytes × Bytes)) → Below k (es ++ rest) → Below k rest
    tail_below [] b = b
    tail_below (x ∷ es) b = tail_below es (b.1)

-- The entries of leaves, one leaf after the other.
abbrev pub joined : List (List (Bytes × Bytes)) → List (Bytes × Bytes)
joined [] = []
joined (entries ∷ leaves) = entries ++ joined leaves

module _ (crc32 : List ℕ → ℕ) (start end : Bytes) (p : FilePager) where
  -- Slots of a leaf and their entries: each slot's key with the value that its reference leads to, in the
  -- leaf itself or along overflow pages.
  abbrev pub Holds : List (Bytes × LeafValueRef) → List (Bytes × Bytes) → Type 0
  Holds [] [] = Unit {0}
  Holds ((k, ref) ∷ refs) ((j, v) ∷ entries) =
      (k ≡ j) × (read_value crc32 none ref p ≡ (p, ok v)) × Holds refs entries
  Holds [] (e ∷ entries) = ⊥
  Holds (r ∷ refs) [] = ⊥

  scan_entries-select :
      (refs : List (Bytes × LeafValueRef)) (entries : List (Bytes × Bytes))
      → IsSorted entries
      → Holds refs entries
      → scan_entries crc32 none start end refs p
        ≡ (p, ok (select start end entries, stops start end entries))
  unfolding scan_entries
  scan_entries-select [] [] s h = refl
  scan_entries-select [] (e ∷ entries) s h = elim h [ ]
  scan_entries-select (r ∷ refs) [] s h = elim h [ ]
  scan_entries-select ((k, ref) ∷ refs) ((j, v) ∷ entries) s (same, value, h) =
      ap
        (λ k.
          (if below start k
              then scan_entries crc32 none start end refs
              else (if past end k
                  then done ([], true)
                  else (read_value crc32 none ref >>= λ v.
                      scan_entries crc32 none start end refs >>= λ rest.
                      done ((k, v) ∷ rest.0, rest.1))))
            p)
        same
      ∙ (elim (Bool-cases (below start j)) [
        | inl e ↦ rw e (scan_entries-select refs entries s.1 h)
        | inr e ↦ rw e (elim (Bool-cases (past end j)) [
          | inl f ↦ rw f (ap (λ l. (p, ok (l, true))) (sym (select-past start end j entries f s.0)))
          | inr f ↦ rw f (
              ap
                (λ o. and_then o (λ v. scan_entries crc32 none start end refs >>= λ rest.
                  done ((j, v) ∷ rest.0, rest.1)))
                value
              ∙ ap (λ o. and_then o (λ rest. done ((j, v) ∷ rest.0, rest.1)))
                  (scan_entries-select refs entries s.1 h))
        ])
      ])

  -- Leaves linked by their next pages, and the entries of each: bodies that decode to slots, all of whose
  -- values can be read.
  abbrev pub IsLinked : ℕ → List (List (Bytes × Bytes)) → Type 0
  IsLinked page_id [] = is_end page_id ≡ true
  IsLinked page_id (entries ∷ leaves) =
      (is_end page_id ≡ false)
      × (body : Bytes) × (next_leaf : ℕ) × (body_at crc32 p page_id ≡ ok body)
      × (refs : List (Bytes × LeafValueRef)) × (decode_leaf_node_refs body ≡ ok (refs, next_leaf))
      × Holds refs entries
      × IsLinked next_leaf leaves

  -- The round of the loop once a leaf is read.
  abbrev ended : ℕ → ℕ → List (Bytes × Bytes) × Bool → M (List (Bytes × Bytes))
  ended rounds next_leaf found =
      if found.1
      then done (found.0)
      else (scan_leaf crc32 none rounds next_leaf start end >>= λ rest. done (found.0 ++ rest))

  abbrev page : ℕ → List (Bytes × LeafValueRef) × ℕ → M (List (Bytes × Bytes))
  page rounds leaf = scan_entries crc32 none start end (leaf.0) >>= ended rounds (leaf.1)

  -- The same, by the code's two tests on each key.
  scan_leaf-taken :
      (rounds page_id : ℕ) (leaves : List (List (Bytes × Bytes)))
      → IsLinked page_id leaves
      → IsSorted (joined leaves)
      → length leaves ≤ rounds
      → scan_leaf crc32 none rounds page_id start end p ≡ (p, ok (select start end (joined leaves)))
  unfolding scan_leaf
  scan_leaf-taken zero page_id [] h s le = rw h refl
  scan_leaf-taken (suc rounds) page_id [] h s le = rw h refl
  scan_leaf-taken zero page_id (entries ∷ leaves) h s le = absurd (omega (arith, le))
  scan_leaf-taken (suc rounds) page_id (entries ∷ leaves)
        (is_page, body, next_leaf, here, refs, decodes, holds, links) s le =
      let (sorted, behind) = IsSorted-parts entries (joined leaves) s in
      let found : List (Bytes × Bytes) = select start end entries in
      let rest : M (List (Bytes × Bytes)) = scan_leaf crc32 none rounds next_leaf start end in
      ap (λ m. m p) (if_false {A = M (List (Bytes × Bytes))} _ _ _ is_page)
      ∙ ap (λ o. and_then o (λ b. lift (decode_leaf_node_refs b) >>= page rounds))
          (read-body_at crc32 p page_id ∙ ap (λ r. (p, r)) here)
      ∙ ap (λ x. and_then (lift x p) (page rounds)) decodes
      ∙ ap (λ o. and_then o (ended rounds next_leaf))
          (scan_entries-select refs entries sorted holds)
      ∙ (elim (Bool-cases (stops start end entries)) [
        | inl e ↦
            ap (λ m. m p)
              (if_true {A = M (List (Bytes × Bytes))} _ (done found)
                (rest >>= λ r. done (found ++ r)) e)
            ∙ ap (λ x. (p, ok x))
                (sym (append-nil found)
                  ∙ ap (λ x. found ++ x) (sym (select-stops start end entries (joined leaves) s e)))
        | inr e ↦
            ap (λ m. m p)
              (if_false {A = M (List (Bytes × Bytes))} _ (done found)
                (rest >>= λ r. done (found ++ r)) e)
            ∙ ap (λ o. and_then o (λ r. done (found ++ r)))
                (scan_leaf-taken rounds next_leaf leaves links behind (omega (arith, le)))
      ])
      ∙ ap (λ x. (p, ok x)) (sym (select-append start end entries (joined leaves)))

  -- The scan of linked leaves, the large values of which can be read, and their entries ascending from leaf to
  -- leaf, gives the entries in the range, in order, and no others, and leaves the pager; the number of leaves is enough rounds.
  pub scan_leaf-select :
      (rounds page_id : ℕ) (leaves : List (List (Bytes × Bytes)))
      → IsLinked page_id leaves
      → IsSorted (joined leaves)
      → length leaves ≤ rounds
      → scan_leaf crc32 none rounds page_id start end p ≡ (p, ok (within start end (joined leaves)))
  scan_leaf-select rounds page_id leaves links s le =
      scan_leaf-taken rounds page_id leaves links s le
      ∙ ap (λ l. (p, ok l)) (select-within start end (joined leaves))
