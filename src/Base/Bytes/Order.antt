-- ===== src/Base/Bytes/Order.antt =====
-- bytes.Compare on lists of bytes, and the order of fixed-width integers as bytes.
use Prim.Native.Nat.{ℕ, zero, suc, ◌+◌, ◌*◌, ◌%◌, ◌^◌, ◌≤◌, ◌<◌, compare, Ordering}
use mathlib.Core.Path.{◌≡◌, refl, sym}
use mathlib.Core.Logic.{◌⊎◌, inl, inr, ◌≢◌}
use mathlib.Core.List.{List, [], ◌∷◌, ◌++◌}
use native.Mathlib.Nat.{pow-suc, mod-lt, mod-eq_of_lt, mod-one}
use native.Mathlib.Omega.{arith}
use plomvix.Base.Lists.{All}
use plomvix.Base.Bytes.{put_be, pow_pos, mod_split}

-- The first difference decides; where there is none, the rest does.
abbrev pub then_compare : Ordering → Ordering → Ordering
then_compare Ordering.lt o = Ordering.lt
then_compare Ordering.eq o = o
then_compare Ordering.gt o = Ordering.gt

-- Lexicographic, a proper prefix first.
unfoldable pub compare_bytes : List ℕ → List ℕ → Ordering
compare_bytes [] [] = Ordering.eq
compare_bytes [] (y ∷ ys) = Ordering.lt
compare_bytes (x ∷ xs) [] = Ordering.gt
compare_bytes (x ∷ xs) (y ∷ ys) = then_compare (compare x y) (compare_bytes xs ys)

compare_cases : (a b : ℕ) → (a < b) ⊎ (a ≡ b) ⊎ (b < a)
compare_cases a b = ground arith

-- Numbers that differ in a higher digit are ordered by it.
compare_digits :
    (a b r s p : ℕ)
    → r < p
    → s < p
    → compare (a * p + r) (b * p + s) ≡ then_compare (compare a b) (compare r s)
compare_digits a b r s p hr hs = elim (compare_cases a b) [
  | inl lt ↦ ground (arith, step a b lt)
  | inr (inl eq) ↦ ground (arith, eq)
  | inr (inr gt) ↦ ground (arith, step b a gt)
]
  where
    step : (x y : ℕ) → x < y → x * p + p ≤ y * p
    step x y h = grind arith

then_compare_assoc :
    (a b c : Ordering) → then_compare (then_compare a b) c ≡ then_compare a (then_compare b c)
then_compare_assoc Ordering.lt b c = refl
then_compare_assoc Ordering.eq b c = refl
then_compare_assoc Ordering.gt b c = refl

compare-put_be_mod :
    (k a b : ℕ) (xs ys : List ℕ)
    → compare_bytes (put_be k a ++ xs) (put_be k b ++ ys)
      ≡ then_compare (compare (a % 256 ^ k) (b % 256 ^ k)) (compare_bytes xs ys)
unfolding put_be compare_bytes
compare-put_be_mod zero a b xs ys = rw (mod-one, mod-one)
compare-put_be_mod (suc k) a b xs ys = rw (
  compare-put_be_mod k a b xs ys,
  ← then_compare_assoc,
  pow-suc,
  mod_split a (256 ^ k) (pow_pos k),
  mod_split b (256 ^ k) (pow_pos k),
  compare_digits _ _ _ _ (256 ^ k) (mod-lt a (pow_pos k)) (mod-lt b (pow_pos k)),
)

-- Big-endian numbers of one width compare as numbers, whatever follows them.
pub compare-put_be :
    (k a b : ℕ) (xs ys : List ℕ)
    → a < 256 ^ k
    → b < 256 ^ k
    → compare_bytes (put_be k a ++ xs) (put_be k b ++ ys)
      ≡ then_compare (compare a b) (compare_bytes xs ys)
compare-put_be k a b xs ys ha hb =
    cc (compare-put_be_mod k a b xs ys, mod-eq_of_lt ha, mod-eq_of_lt hb)

pub compare_bytes_refl : (xs : List ℕ) → compare_bytes xs xs ≡ Ordering.eq
unfolding compare_bytes
compare_bytes_refl [] = refl
compare_bytes_refl (x ∷ xs) = ground (arith, compare_bytes_refl xs)

pub compare_bytes-eq : (xs ys : List ℕ) → compare_bytes xs ys ≡ Ordering.eq → xs ≡ ys
unfolding compare_bytes
compare_bytes-eq [] [] h = refl
compare_bytes-eq [] (y ∷ ys) h = cc
compare_bytes-eq (x ∷ xs) [] h = cc
compare_bytes-eq (x ∷ xs) (y ∷ ys) h = ground (arith, compare_bytes-eq xs ys)

-- A zero byte ends a text that holds none, so that texts compare before what follows them.
pub compare-terminated :
    (s t xs ys : List ℕ)
    → All (λ c. c ≢ 0) s
    → All (λ c. c ≢ 0) t
    → compare_bytes (s ++ 0 ∷ xs) (t ++ 0 ∷ ys)
      ≡ then_compare (compare_bytes s t) (compare_bytes xs ys)
unfolding compare_bytes
compare-terminated [] [] xs ys hs ht = ground arith
compare-terminated [] (c ∷ t) xs ys hs ht = ground (arith, ht.0)
compare-terminated (c ∷ s) [] xs ys hs ht = ground (arith, hs.0)
compare-terminated (c ∷ s) (d ∷ t) xs ys hs ht =
    rw (compare-terminated s t xs ys hs.1 ht.1)
      (sym (then_compare_assoc (compare c d) (compare_bytes s t) (compare_bytes xs ys)))
