-- ===== src/Kv/Leaves/Routes.antt =====
-- How an internal node routes keys after a child was split, and after it was split itself.
use plomvix.Base.{
  ℕ, zero, suc, ◌/◌, ◌≡◌, refl, sym, ap, ◌∙◌, inl, inr, true, false, List, [], ◌∷◌, ◌++◌, length,
  take, drop, length-take, length-drop, take-drop, arith, ◌==◌, some, if◌then◌else◌, Bool-cases,
}
use mathlib.Core.Bool.{true≢false}
use mathlib.Core.Path.{subst}
use plomvix.Kv.{Bytes, less, max_internal_keys}
use plomvix.Kv.Order.{less_trans}
use plomvix.Kv.Search.{upper_bound, upper_bound_idx}
use plomvix.Kv.Leaves.{insert_route, insert_route_at, InternalSplit, around, split_routes}
use plomvix.Kv.Leaves.Sorted.{Below, IsSorted}
use plomvix.Kv.Leaves.Split.{IsSorted-parts}

suc-zero : (a : ℕ) → (suc a == 0) ≡ false
suc-zero a = ground arith

zero-suc : (a : ℕ) → (0 == suc a) ≡ false
zero-suc a = ground arith

suc-suc : (a b : ℕ) → (suc a == suc b) ≡ (a == b)
suc-suc a b = ground arith

insert_route-behind :
    (i left : ℕ) (sep : Bytes) (right : ℕ) (k : Bytes) (c : ℕ) (entries : List (Bytes × ℕ))
    → insert_route_at i left sep right ((k, c) ∷ entries)
      ≡ (k, (insert_route i left sep right (c, entries)).0)
        ∷ (insert_route i left sep right (c, entries)).1
unfolding insert_route_at insert_route
insert_route-behind zero left sep right k c entries = refl
insert_route-behind (suc i) left sep right k c entries = refl

-- The child at an index is replaced by two with the separator between them, a key that routes there:
-- the keys that went there go to the one on their side of it, and all others where they went before.
pub insert_route-upper_bound :
    (left : ℕ) (sep : Bytes) (right first : ℕ) (entries : List (Bytes × ℕ)) (j : Bytes)
    → upper_bound
        ((insert_route (upper_bound_idx entries sep) left sep right (first, entries)).0)
        ((insert_route (upper_bound_idx entries sep) left sep right (first, entries)).1)
        j
      ≡ (if upper_bound_idx entries j == upper_bound_idx entries sep
          then (if less j sep then left else right)
          else upper_bound first entries j)
unfolding insert_route
insert_route-upper_bound left sep right first [] j = refl
insert_route-upper_bound left sep right first ((k, c) ∷ entries) j =
    elim (Bool-cases (less sep k)) [
      | inl e ↦ rw e (elim (Bool-cases (less j k)) [
        | inl f ↦ rw f refl
        | inr f ↦ rw (f, not_before j sep k e f, suc-zero (upper_bound_idx entries j)) refl
      ])
      | inr e ↦
          rw (e, insert_route-behind (upper_bound_idx entries sep) left sep right k c entries)
            (elim (Bool-cases (less j k)) [
              | inl f ↦ rw (f, zero-suc (upper_bound_idx entries sep)) refl
              | inr f ↦
                  rw (f, suc-suc (upper_bound_idx entries j) (upper_bound_idx entries sep))
                    (insert_route-upper_bound left sep right c entries j)
            ])
    ]
  where
    not_before : (j sep k : Bytes) → less sep k ≡ true → less j k ≡ false → less j sep ≡ false
    not_before j sep k e f = elim (Bool-cases (less j sep)) [
      | inl g ↦ absurd (true≢false (sym (less_trans j sep k g e) ∙ f))
      | inr g ↦ g
    ]

-- Routes on either side of a key.
pub upper_bound-halves :
    (first : ℕ) (l : List (Bytes × ℕ)) (m : Bytes) (c : ℕ) (r : List (Bytes × ℕ)) (j : Bytes)
    → IsSorted (l ++ (m, c) ∷ r)
    → upper_bound first (l ++ (m, c) ∷ r) j
      ≡ (if less j m then upper_bound first l j else upper_bound c r j)
upper_bound-halves first [] m c r j s = refl
upper_bound-halves first ((k, d) ∷ l) m c r j s = elim (Bool-cases (less j k)) [
  | inl e ↦ rw (e, less_trans j k m e (Below-middle l (s.0))) refl
  | inr e ↦ rw e (upper_bound-halves d l m c r j s.1)
]
  where
    Below-middle : (es : List (Bytes × ℕ)) → Below k (es ++ (m, c) ∷ r) → less k m ≡ true
    Below-middle [] b = b.0
    Below-middle ((i, x) ∷ es) b = Below-middle es (b.1)

-- A full internal node with one more route splits into two sorted nodes of 28 keys, of which the one
-- on a key's side of the middle key routes it as the whole did.
pub split_routes-upper_bound :
    (first : ℕ) (entries : List (Bytes × ℕ))
    → length entries ≡ suc max_internal_keys
    → IsSorted entries
    → (h : InternalSplit) × (split_routes entries ≡ some h)
      × (length h.left_entries ≡ 28)
      × (length h.right_entries ≡ 28)
      × IsSorted h.left_entries
      × IsSorted h.right_entries
      × ((j : Bytes)
          → (if less j h.middle_key
              then upper_bound first h.left_entries j
              else upper_bound h.right_first h.right_entries j)
            ≡ upper_bound first entries j)
split_routes-upper_bound first entries full s = cut (drop 28 entries) refl
  where
    Goal : Type 0
    Goal =
        (h : InternalSplit) × (split_routes entries ≡ some h)
        × (length h.left_entries ≡ 28)
        × (length h.right_entries ≡ 28)
        × IsSorted h.left_entries
        × IsSorted h.right_entries
        × ((j : Bytes)
            → (if less j h.middle_key
                then upper_bound first h.left_entries j
                else upper_bound h.right_first h.right_entries j)
              ≡ upper_bound first entries j)

    half : length entries / 2 ≡ 28
    half = ap (λ n. n / 2) full

    cut : (tail : List (Bytes × ℕ)) → drop 28 entries ≡ tail → Goal
    cut [] e = absurd (omega (arith, ap length e, length-drop 28 entries, full))
    cut ((m, c) ∷ right) e =
        let whole : take 28 entries ++ (m, c) ∷ right ≡ entries =
          ap (λ t. take 28 entries ++ t) (sym e) ∙ take-drop 28 entries in
        let sorted : IsSorted (take 28 entries ++ (m, c) ∷ right) = subst IsSorted (sym whole) s in
        let (one, two) = IsSorted-parts (take 28 entries) ((m, c) ∷ right) sorted in
        (
          record {
            left_entries = take 28 entries;
            middle_key = m;
            right_first = c;
            right_entries = right;
          },
          (unfold split_routes in
              ap (λ n. around (take n entries) (drop n entries)) half
              ∙ ap (around (take 28 entries)) e),
          omega (arith, length-take 28 entries, full),
          omega (arith, ap length e, length-drop 28 entries, full),
          one,
          two.1,
          λ j.
              sym (upper_bound-halves first (take 28 entries) m c right j sorted)
              ∙ ap (λ es. upper_bound first es j) whole,
        )
