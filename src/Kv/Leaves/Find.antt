-- ===== src/Kv/Leaves/Find.antt =====
-- What a leaf's entries hold after Set and Delete.
use plomvix.Base.{
  ◌≡◌, refl, sym, ap, ◌∙◌, inl, inr, false, List, [], ◌∷◌, Option, none, some, if◌then◌else◌,
  Bool-cases,
}
use mathlib.Core.Bool.{true≢false}
use mathlib.Core.Path.{subst}
use plomvix.Kv.{Bytes, less, same}
use plomvix.Kv.Order.{less-same, apart, less_irrefl, same-eq}
use plomvix.Kv.Search.{find}
use plomvix.Kv.Leaves.{insert_entry, update_entry, delete_entry}
use plomvix.Kv.Leaves.Sorted.{Below, IsSorted}

module _ {V : Type 0} where
  swapped :
      (i k j : Bytes) (w : V) (o rest : Option V)
      → same i k ≡ false
      → (if same i j then some w else (if same k j then o else rest))
        ≡ (if same k j then o else (if same i j then some w else rest))
  swapped i k j w o rest ne = elim (Bool-cases (same i j)) [
    | inl e ↦ rw (e, apart i k j ne e) refl
    | inr e ↦ rw e refl
  ]

  pub find-insert_entry :
      (k : Bytes) (v : V) (entries : List (Bytes × V)) (j : Bytes)
      → find j (insert_entry k v entries) ≡ (if same k j then some v else find j entries)
  unfolding insert_entry
  find-insert_entry k v [] j = refl
  find-insert_entry k v ((i, w) ∷ entries) j = elim (Bool-cases (less i k)) [
    | inl e ↦ rw e (
        ap (λ o. if same i j then some w else o) (find-insert_entry k v entries j)
        ∙ swapped i k j w (some v) (find j entries) (less-same i k e))
    | inr e ↦ rw e refl
  ]

  pub find-update_entry :
      (k : Bytes) (v old : V) (entries : List (Bytes × V)) (j : Bytes)
      → find k entries ≡ some old
      → find j (update_entry k v entries) ≡ (if same k j then some v else find j entries)
  unfolding update_entry
  find-update_entry k v old [] j h = cc
  find-update_entry k v old ((i, w) ∷ entries) j h = elim (Bool-cases (same i k)) [
    | inl e ↦
        rw (e, same-eq i k e)
          (elim (Bool-cases (same k j)) [ inl f ↦ rw f refl | inr f ↦ rw f refl ])
    | inr e ↦ rw e (
        ap (λ o. if same i j then some w else o)
          (find-update_entry k v old entries j
            (sym (ap (λ b. if b then some w else find k entries) e) ∙ h))
        ∙ swapped i k j w (some v) (find j entries) e)
  ]

  -- A key less than all others is not among them.
  pub find-Below :
      (k : Bytes) (entries : List (Bytes × V)) → Below k entries → find k entries ≡ none
  find-Below k [] h = refl
  find-Below k ((i, w) ∷ entries) h = rw (backwards) (find-Below k entries h.1)
    where
      backwards : same i k ≡ false
      backwards = elim (Bool-cases (same i k)) [
        | inl e ↦ absurd (true≢false (sym (h.0) ∙ ap (less k) (same-eq i k e) ∙ less_irrefl k))
        | inr e ↦ e
      ]

  deleted :
      (i k j : Bytes) (w : V) (entries : List (Bytes × V))
      → i ≡ k
      → Below i entries
      → find j entries ≡ (if same k j then none else (if same i j then some w else find j entries))
  deleted i k j w entries e b = elim (Bool-cases (same k j)) [
    | inl f ↦ rw f (find-Below j entries (subst (λ x. Below x entries) (e ∙ same-eq k j f) b))
    | inr f ↦ rw f (rw (ap (λ x. same x j) e ∙ f) refl)
  ]

  pub find-delete_entry :
      (k : Bytes) (entries : List (Bytes × V)) (j : Bytes)
      → IsSorted entries
      → find j (delete_entry k entries) ≡ (if same k j then none else find j entries)
  unfolding delete_entry
  find-delete_entry k [] j s = elim (Bool-cases (same k j)) [
    | inl e ↦ rw e refl
    | inr e ↦ rw e refl
  ]
  find-delete_entry k ((i, w) ∷ entries) j s = elim (Bool-cases (same i k)) [
    | inl e ↦ rw e (deleted i k j w entries (same-eq i k e) s.0)
    | inr e ↦ rw e (
        ap (λ o. if same i j then some w else o) (find-delete_entry k entries j s.1)
        ∙ swapped i k j w none (find j entries) e)
  ]
