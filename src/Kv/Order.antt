-- ===== src/Kv/Order.antt =====
-- The order of the store's keys, by their bytes.
use plomvix.Base.{◌≡◌, refl, sym, ap, ◌∙◌, inl, inr, Bool, true, false, [], ◌∷◌, arith, Bool-cases}
use mathlib.Core.Bool.{true≢false}
use Prim.Native.Nat.{Ordering}
use plomvix.Base.Bytes.Order.{compare_bytes, compare_bytes_refl, compare_bytes-eq}
use plomvix.Kv.{Bytes, less, same}

pub less_irrefl : (a : Bytes) → less a a ≡ false
less_irrefl a = rw (less, compare_bytes_refl a) refl

pub same_refl : (a : Bytes) → same a a ≡ true
same_refl a = rw (same, compare_bytes_refl a) refl

pub same-eq : (a b : Bytes) → same a b ≡ true → a ≡ b
same-eq a b h = compare_bytes-eq a b (is_eq (compare_bytes a b) h)
  where
    is_eq :
        (o : Ordering)
        → (elim o as (λ x. Bool) [ Ordering.eq ↦ true | _ ↦ false ]) ≡ true
        → o ≡ Ordering.eq
    is_eq Ordering.eq h = refl
    is_eq Ordering.lt h = cc
    is_eq Ordering.gt h = cc

pub less_trans : (a b c : Bytes) → less a b ≡ true → less b c ≡ true → less a c ≡ true
unfolding compare_bytes
less_trans [] [] c h g = cc
less_trans [] (y ∷ b) [] h g = cc
less_trans [] (y ∷ b) (z ∷ c) h g = refl
less_trans (x ∷ a) [] c h g = cc
less_trans (x ∷ a) (y ∷ b) [] h g = cc
less_trans (x ∷ a) (y ∷ b) (z ∷ c) h g = ground (arith, less_trans a b c)

pub less_asym : (a b : Bytes) → less a b ≡ true → less b a ≡ false
unfolding compare_bytes
less_asym [] [] h = refl
less_asym [] (y ∷ b) h = refl
less_asym (x ∷ a) [] h = cc
less_asym (x ∷ a) (y ∷ b) h = ground (arith, less_asym a b)

-- Keys of which neither is less are equal.
pub less_total : (a b : Bytes) → less a b ≡ false → less b a ≡ false → a ≡ b
unfolding compare_bytes
less_total [] [] h g = refl
less_total [] (y ∷ b) h g = cc
less_total (x ∷ a) [] h g = cc
less_total (x ∷ a) (y ∷ b) h g = ground (arith, less_total a b)

pub less_other : (j k : Bytes) → same j k ≡ false → less j k ≡ false → less k j ≡ true
less_other j k ne h = elim (Bool-cases (less k j)) [
  | inl e ↦ e
  | inr e ↦ absurd (true≢false (sym (same_refl j) ∙ ap (same j) (less_total j k h e) ∙ ne))
]

pub less-same : (j k : Bytes) → less j k ≡ true → same j k ≡ false
less-same j k h = elim (Bool-cases (same j k)) [
  | inl e ↦ absurd (true≢false (sym h ∙ ap (less j) (sym (same-eq j k e)) ∙ less_irrefl j))
  | inr e ↦ e
]

-- Of two keys that differ, no third equals both.
pub apart : (i k j : Bytes) → same i k ≡ false → same i j ≡ true → same k j ≡ false
apart i k j ne h = elim (Bool-cases (same k j)) [
  | inl e ↦
      absurd
        (true≢false (sym (same_refl i) ∙ ap (same i) (same-eq i j h ∙ sym (same-eq k j e)) ∙ ne))
  | inr e ↦ e
]
