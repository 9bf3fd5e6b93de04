-- ===== src/Heap/Table/Conflict.antt =====
-- That a write at a version not above one that the row has is refused.
use plomvix.Base.{
  ℕ, ◌≤◌, ◌≡◌, refl, ap, ◌∙◌, inl, inr, true, List, [], ◌∷◌, ◌++◌, length, ◌==◌, leb, if_true,
  Bool-cases, Option, none, some, ok, err, ◌>>=◌, if_false, false, arith,
}
use plomvix.Key.{Kind}
use plomvix.Key.Composite.{Any}
use plomvix.Heap.{Schema}
use plomvix.Heap.Table.{
  tx_conflict, KvStore, pk_values, version_in, conflict_round, no_conflict, versions_of,
  validate_monotonic_tx, insert, update_row, delete_row,
}

module _ {F : Type 0} (kinds : List Kind) (tx_id version : ℕ) where
  no_conflict-refuses :
      (before : List (List ℕ × List ℕ)) (k data_bytes : List ℕ) (after : List (List ℕ × List ℕ))
      → version_in kinds k ≡ some version
      → tx_id ≤ version
      → no_conflict {F = F} kinds tx_id (before ++ (k, data_bytes) ∷ after) ≡ err tx_conflict
  unfolding no_conflict
  no_conflict-refuses [] k d after h le =
      ap (conflict_round tx_id (no_conflict kinds tx_id after)) h ∙ if_true _ _ _ reached
    where
      reached : leb tx_id version ≡ true
      reached = ground arith
  no_conflict-refuses ((j, e) ∷ before) k d after h le =
      ap (λ r. conflict_round tx_id r (version_in kinds j))
        (no_conflict-refuses before k d after h le)
      ∙ keeps (version_in kinds j)
    where
      keeps : (o : Option ℕ) → conflict_round {F = F} tx_id (err tx_conflict) o ≡ err tx_conflict
      keeps none = refl
      keeps (some v) = elim (Bool-cases (leb tx_id v)) [
        | inl y ↦ if_true _ _ _ y
        | inr n ↦ if_false _ _ _ n
      ]

module _ {S F : Type 0} (store : KvStore S F)
    (sort_descending : List (ℕ × List ℕ) → List (ℕ × List ℕ)) (schema : Schema) (s : S) (tx_id : ℕ)
    (pk : List (Option Any)) where
  validate-conflict :
      (kinds : List Kind) (before : List (List ℕ × List ℕ)) (k data_bytes : List ℕ)
      (after : List (List ℕ × List ℕ)) (version : ℕ)
      → 1 ≤ tx_id
      → versions_of store sort_descending schema s pk
        ≡ ok (kinds, before ++ (k, data_bytes) ∷ after)
      → version_in kinds k ≡ some version
      → tx_id ≤ version
      → validate_monotonic_tx store sort_descending schema s pk tx_id ≡ err tx_conflict
  unfolding validate_monotonic_tx
  validate-conflict kinds before k d after version pos found h le =
      if_false _ _ _ positive
      ∙ ap (λ r. r >>= λ v. no_conflict (v.0) tx_id (v.1)) found
      ∙ no_conflict-refuses kinds tx_id version before k d after h le
    where
      positive : (tx_id == 0) ≡ false
      positive = ground arith

  -- Where the scan of a row's versions gives one that is not below the transaction's id, Insert, Update and
  -- Delete of that row leave the store as it is and fail with the conflict, which goes before all other
  -- errors but the count of the columns; the row of Insert and Update has that primary key.
  pub writes-conflict :
      (values : List (Option Any)) (kinds : List Kind) (before : List (List ℕ × List ℕ))
      (k data_bytes : List ℕ) (after : List (List ℕ × List ℕ)) (version : ℕ)
      → (length values == length schema.columns) ≡ true
      → pk_values {F = F} values schema.pk_indices ≡ ok pk
      → 1 ≤ tx_id
      → versions_of store sort_descending schema s pk
        ≡ ok (kinds, before ++ (k, data_bytes) ∷ after)
      → version_in kinds k ≡ some version
      → tx_id ≤ version
      → (insert store sort_descending schema s tx_id values ≡ (s, err tx_conflict))
        × (update_row store sort_descending schema s tx_id pk values ≡ (s, err tx_conflict))
        × (delete_row store sort_descending schema s tx_id pk ≡ (s, err tx_conflict))
  unfolding insert update_row delete_row
  writes-conflict values kinds before k d after version count key pos found h le =
      let refused = validate-conflict kinds before k d after version pos found h le in
      (rw (count, key, refused) refl, rw (count, refused) refl, rw refused refl)
