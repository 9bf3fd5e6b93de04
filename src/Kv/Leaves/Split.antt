-- ===== src/Kv/Leaves/Split.antt =====
-- The two leaves that splitLeaf makes.
use plomvix.Base.{
  suc, ◌≡◌, refl, sym, ap, ◌∙◌, inl, inr, true, List, [], ◌∷◌, ◌++◌, length, take, drop,
  length-take, length-drop, take-drop, arith, none, some, if◌then◌else◌, Bool-cases,
}
use mathlib.Core.Path.{subst}
use plomvix.Kv.{Bytes, less, same, max_leaf_keys}
use plomvix.Kv.Order.{same-eq, less_trans}
use plomvix.Kv.Search.{find}
use plomvix.Kv.Leaves.{insert_entry, merge_entry, halves}
use plomvix.Kv.Leaves.Sorted.{
  Below, IsSorted, insert_entry-IsSorted, length-insert_entry, merge_entry-insert_entry,
}
use plomvix.Kv.Leaves.Find.{find-insert_entry, find-Below}

module _ {V : Type 0} where
  Below-parts : (k : Bytes) (l r : List (Bytes × V)) → Below k (l ++ r) → Below k l × Below k r
  Below-parts k [] r h = (tt, h)
  Below-parts k ((j, w) ∷ l) r h = let (a, b) = Below-parts k l r h.1 in ((h.0, a), b)

  pub IsSorted-parts : (l r : List (Bytes × V)) → IsSorted (l ++ r) → IsSorted l × IsSorted r
  IsSorted-parts [] r h = (tt, h)
  IsSorted-parts ((k, v) ∷ l) r h =
      let (a, b) = IsSorted-parts l r h.1 in (((Below-parts k l r h.0).0, a), b)

  -- In sorted entries a key before the middle one is found to the left of it, any other to the right.
  pub find-halves :
      (l : List (Bytes × V)) (m : Bytes) (w : V) (r : List (Bytes × V)) (j : Bytes)
      → IsSorted (l ++ (m, w) ∷ r)
      → find j (l ++ (m, w) ∷ r) ≡ (if less j m then find j l else find j ((m, w) ∷ r))
  find-halves [] m w r j s = elim (Bool-cases (less j m)) [
    | inl e ↦ rw e (find-Below j ((m, w) ∷ r) (e, below_all r (s.0) e))
    | inr e ↦ rw e refl
  ]
    where
      below_all : (es : List (Bytes × V)) → Below m es → less j m ≡ true → Below j es
      below_all [] b e = tt
      below_all ((i, x) ∷ es) b e = (less_trans j m i e (b.0), below_all es (b.1) e)
  find-halves ((k, v) ∷ l) m w r j s = elim (Bool-cases (same k j)) [
    | inl e ↦ rw (e, before (Below-middle l (s.0)) (same-eq k j e)) refl
    | inr e ↦ rw e (find-halves l m w r j s.1)
  ]
    where
      Below-middle : (es : List (Bytes × V)) → Below k (es ++ (m, w) ∷ r) → less k m ≡ true
      Below-middle [] b = b.0
      Below-middle ((i, x) ∷ es) b = Below-middle es (b.1)

      before : less k m ≡ true → k ≡ j → less j m ≡ true
      before h e = subst (λ x. less x m ≡ true) e h

-- A full leaf that takes a new key splits into two sorted leaves of four entries: each key is found
-- on its side of the right leaf's first key, as in the leaf with the new entry.
pub halves-find :
    {V : Type 0} (k : Bytes) (v : V) (entries : List (Bytes × V))
    → length entries ≡ max_leaf_keys
    → IsSorted entries
    → find k entries ≡ none
    → (left : List (Bytes × V)) × (sep : Bytes) × (w : V) × (right : List (Bytes × V)) × (halves
          (merge_entry k v entries)
        ≡ (left, (sep, w) ∷ right))
      × (length left ≡ 4)
      × (length right ≡ 3)
      × IsSorted left
      × IsSorted ((sep, w) ∷ right)
      × ((j : Bytes)
          → (if less j sep then find j left else find j ((sep, w) ∷ right))
            ≡ (if same k j then some v else find j entries))
unfolding halves
halves-find {V} k v entries full s absent = cut (drop 4 all) refl
  where
    all : List (Bytes × V)
    all = insert_entry k v entries

    size : length all ≡ 8
    size = length-insert_entry k v entries ∙ ap suc full

    Goal : Type 0
    Goal =
        (left : List (Bytes × V)) × (sep : Bytes) × (w : V) × (right : List (Bytes × V)) × (halves
            (merge_entry k v entries)
          ≡ (left, (sep, w) ∷ right))
        × (length left ≡ 4)
        × (length right ≡ 3)
        × IsSorted left
        × IsSorted ((sep, w) ∷ right)
        × ((j : Bytes)
            → (if less j sep then find j left else find j ((sep, w) ∷ right))
              ≡ (if same k j then some v else find j entries))

    cut : (tail : List (Bytes × V)) → drop 4 all ≡ tail → Goal
    cut [] e = absurd (omega (arith, ap length e, length-drop 4 all, size))
    cut ((sep, w) ∷ right) e =
        let whole : take 4 all ++ (sep, w) ∷ right ≡ all =
          ap (λ t. take 4 all ++ t) (sym e) ∙ take-drop 4 all in
        let sorted : IsSorted (take 4 all ++ (sep, w) ∷ right) =
          subst IsSorted (sym whole) (insert_entry-IsSorted k v entries s absent) in
        let (one, two) = IsSorted-parts (take 4 all) ((sep, w) ∷ right) sorted in
        (
          take 4 all,
          sep,
          w,
          right,
          rw (merge_entry-insert_entry k v entries absent, size) (ap (λ t. (take 4 all, t)) e),
          omega (arith, length-take 4 all, size),
          omega (arith, ap length e, length-drop 4 all, size),
          one,
          two,
          λ j.
              sym (find-halves (take 4 all) sep w right j sorted)
              ∙ ap (find j) whole
              ∙ find-insert_entry k v entries j,
        )
