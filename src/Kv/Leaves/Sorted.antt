-- ===== src/Kv/Leaves/Sorted.antt =====
-- Ascending keys, and that the operations on a leaf's entries keep them ascending.
use plomvix.Base.{
  suc, ◌≤◌, ◌≡◌, refl, sym, ap, inl, inr, Bool, true, false, ◌&&◌, List, [], ◌∷◌, map, length, All,
  arith, none, some, if◌then◌else◌, Bool-cases,
}
use mathlib.Core.Bool.{true≢false}
use plomvix.Kv.{Bytes, less, same, ascending}
use plomvix.Kv.Order.{less_other, less_trans, less_asym}
use plomvix.Kv.Search.{find}
use plomvix.Kv.Leaves.{insert_entry, merge_entry, update_entry, delete_entry}

module _ {V : Type 0} where
  -- The key is less than that of each entry.
  abbrev pub Below : Bytes → List (Bytes × V) → Type 0
  Below k entries = All (λ e. less k (e.0) ≡ true) entries

  -- Each key is less than all behind it.
  abbrev pub IsSorted : List (Bytes × V) → Type 0
  IsSorted [] = Unit
  IsSorted ((k, v) ∷ entries) = Below k entries × IsSorted entries

  pub Below-trans :
      (j k : Bytes) (entries : List (Bytes × V))
      → less j k ≡ true
      → Below k entries
      → Below j entries
  Below-trans j k [] h b = tt
  Below-trans j k ((i, w) ∷ entries) h b =
      (less_trans j k i h (b.0), Below-trans j k entries h (b.1))

  -- The check of the encoders is the order of the keys.
  pub ascending-IsSorted :
      (entries : List (Bytes × V)) → ascending (map (λ e. e.0) entries) ≡ true → IsSorted entries
  ascending-IsSorted [] h = tt
  ascending-IsSorted ((k, v) ∷ []) h = (tt, tt)
  ascending-IsSorted ((k, v) ∷ ((j, w) ∷ entries)) h =
      let (first, rest) = both (less k j) (ascending (j ∷ map (λ e. e.0) entries)) h in
      let behind : IsSorted ((j, w) ∷ entries) = ascending-IsSorted ((j, w) ∷ entries) rest in
      ((first, Below-trans k j entries first (behind.0)), behind)
    where
      both : (a b : Bool) → (a && b) ≡ true → (a ≡ true) × (b ≡ true)
      both true b h = (refl, h)
      both false b h = absurd (true≢false (sym h))

  pub IsSorted-ascending :
      (entries : List (Bytes × V)) → IsSorted entries → ascending (map (λ e. e.0) entries) ≡ true
  IsSorted-ascending [] h = refl
  IsSorted-ascending ((k, v) ∷ []) h = refl
  IsSorted-ascending ((k, v) ∷ ((j, w) ∷ entries)) h =
      rw (h.0.0) (IsSorted-ascending ((j, w) ∷ entries) h.1)

  -- A key that a list does not have differs from its first, and the rest does not have it.
  pub find-absent :
      (k j : Bytes) (w : V) (entries : List (Bytes × V))
      → find k ((j, w) ∷ entries) ≡ none
      → (same j k ≡ false) × (find k entries ≡ none)
  find-absent k j w entries h = split (same j k) h
    where
      split :
          (b : Bool)
          → (if b then some w else find k entries) ≡ none
          → (b ≡ false) × (find k entries ≡ none)
      split true h = cc
      split false h = (refl, h)

  pub All-insert_entry {κ} :
      (P : Bytes × V → Type κ) (k : Bytes) (v : V) (entries : List (Bytes × V))
      → P (k, v)
      → All P entries
      → All P (insert_entry k v entries)
  unfolding insert_entry
  All-insert_entry P k v [] p h = (p, tt)
  All-insert_entry P k v ((j, w) ∷ entries) p h = elim (Bool-cases (less j k)) [
    | inl e ↦ rw e (h.0, All-insert_entry P k v entries p h.1)
    | inr e ↦ rw e (p, h)
  ]

  pub insert_entry-IsSorted :
      (k : Bytes) (v : V) (entries : List (Bytes × V))
      → IsSorted entries
      → find k entries ≡ none
      → IsSorted (insert_entry k v entries)
  unfolding insert_entry
  insert_entry-IsSorted k v [] s h = (tt, tt)
  insert_entry-IsSorted k v ((j, w) ∷ entries) s h =
      let (ne, absent) = find-absent k j w entries h in
      elim (Bool-cases (less j k)) [
        | inl e ↦ rw e (
          All-insert_entry (λ x. less j (x.0) ≡ true) k v entries e s.0,
          insert_entry-IsSorted k v entries s.1 absent,
        )
        | inr e ↦
            (let first : less k j ≡ true = less_other j k ne e in
              rw e ((first, Below-trans k j entries first s.0), s))
      ]

  -- The two loops put a new key at the same place.
  pub merge_entry-insert_entry :
      (k : Bytes) (v : V) (entries : List (Bytes × V))
      → find k entries ≡ none
      → merge_entry k v entries ≡ insert_entry k v entries
  unfolding merge_entry insert_entry
  merge_entry-insert_entry k v [] h = refl
  merge_entry-insert_entry k v ((j, w) ∷ entries) h =
      let (ne, absent) = find-absent k j w entries h in
      elim (Bool-cases (less j k)) [
        | inl e ↦
            rw (e, less_asym j k e)
              (ap (λ l. (j, w) ∷ l) (merge_entry-insert_entry k v entries absent))
        | inr e ↦ rw (e, less_other j k ne e) refl
      ]

  pub All-delete_entry {κ} :
      (P : Bytes × V → Type κ) (k : Bytes) (entries : List (Bytes × V))
      → All P entries
      → All P (delete_entry k entries)
  unfolding delete_entry
  All-delete_entry P k [] h = tt
  All-delete_entry P k ((j, w) ∷ entries) h = elim (Bool-cases (same j k)) [
    | inl e ↦ rw e (h.1)
    | inr e ↦ rw e (h.0, All-delete_entry P k entries h.1)
  ]

  pub delete_entry-IsSorted :
      (k : Bytes) (entries : List (Bytes × V))
      → IsSorted entries
      → IsSorted (delete_entry k entries)
  unfolding delete_entry
  delete_entry-IsSorted k [] s = tt
  delete_entry-IsSorted k ((j, w) ∷ entries) s = elim (Bool-cases (same j k)) [
    | inl e ↦ rw e (s.1)
    | inr e ↦ rw e (
      All-delete_entry (λ x. less j (x.0) ≡ true) k entries s.0,
      delete_entry-IsSorted k entries s.1,
    )
  ]

  Below-update_entry :
      (j k : Bytes) (v : V) (entries : List (Bytes × V))
      → Below j entries
      → Below j (update_entry k v entries)
  unfolding update_entry
  Below-update_entry j k v [] h = tt
  Below-update_entry j k v ((i, w) ∷ entries) h = elim (Bool-cases (same i k)) [
    | inl e ↦ rw e h
    | inr e ↦ rw e (h.0, Below-update_entry j k v entries h.1)
  ]

  pub update_entry-IsSorted :
      (k : Bytes) (v : V) (entries : List (Bytes × V))
      → IsSorted entries
      → IsSorted (update_entry k v entries)
  unfolding update_entry
  update_entry-IsSorted k v [] s = tt
  update_entry-IsSorted k v ((j, w) ∷ entries) s = elim (Bool-cases (same j k)) [
    | inl e ↦ rw e s
    | inr e ↦ rw e (Below-update_entry j k v entries s.0, update_entry-IsSorted k v entries s.1)
  ]

  pub All-update_entry {κ} :
      (P : Bytes × V → Type κ) (k : Bytes) (v : V) (entries : List (Bytes × V))
      → ((e : Bytes × V) → P e → P (e.0, v))
      → All P entries
      → All P (update_entry k v entries)
  unfolding update_entry
  All-update_entry P k v [] f h = tt
  All-update_entry P k v ((j, w) ∷ entries) f h = elim (Bool-cases (same j k)) [
    | inl e ↦ rw e (f (j, w) h.0, h.1)
    | inr e ↦ rw e (h.0, All-update_entry P k v entries f h.1)
  ]

  pub length-insert_entry :
      (k : Bytes) (v : V) (entries : List (Bytes × V))
      → length (insert_entry k v entries) ≡ suc (length entries)
  unfolding insert_entry
  length-insert_entry k v [] = refl
  length-insert_entry k v ((j, w) ∷ entries) = elim (Bool-cases (less j k)) [
    | inl e ↦ rw e (ap suc (length-insert_entry k v entries))
    | inr e ↦ rw e refl
  ]

  pub length-update_entry :
      (k : Bytes) (v : V) (entries : List (Bytes × V))
      → length (update_entry k v entries) ≡ length entries
  unfolding update_entry
  length-update_entry k v [] = refl
  length-update_entry k v ((j, w) ∷ entries) = elim (Bool-cases (same j k)) [
    | inl e ↦ rw e refl
    | inr e ↦ rw e (ap suc (length-update_entry k v entries))
  ]

  pub length-delete_entry :
      (k : Bytes) (entries : List (Bytes × V)) → length (delete_entry k entries) ≤ length entries
  unfolding delete_entry
  length-delete_entry k [] = omega arith
  length-delete_entry k ((j, w) ∷ entries) = elim (Bool-cases (same j k)) [
    | inl e ↦ rw e (omega arith)
    | inr e ↦ rw e (omega (arith, length-delete_entry k entries))
  ]
