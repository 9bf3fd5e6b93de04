-- ===== src/Base/Bytes.antt =====
-- encoding/binary's fixed-width integers as lists of bytes, most and least significant first.
pub mod Order
use Prim.Native.Nat.{ℕ, zero, suc, ◌+◌, ◌*◌, ◌/◌, ◌%◌, ◌^◌, ◌≤◌, ◌<◌}
use mathlib.Core.Path.{◌≡◌, refl, ap, sym, ◌∙◌}
use mathlib.Core.List.{List, [], ◌∷◌, ◌++◌}
use native.Mathlib.Nat.{
  pow-suc, div-add-mod, mod-lt, mod-eq_of_lt, mul-add-mod_self_left, one-le-pow,
}
use native.Mathlib.Omega.{arith}
use plomvix.Base.Lists.{length, All, take, drop, take-append, drop-append}

abbrev pub IsByte : ℕ → Type 0
IsByte b = b < 256

-- BigEndian.PutUint at a width of `k` bytes: byte i of the slice is byte(v >> 8 * (k - 1 - i)).
unfoldable pub put_be : ℕ → ℕ → List ℕ
put_be zero v = []
put_be (suc k) v = (v / 256 ^ k % 256) ∷ put_be k v

-- BigEndian.Uint: the sum of the bytes, each shifted to its place.
unfoldable pub get_be : List ℕ → ℕ
get_be [] = 0
get_be (b ∷ bs) = b * 256 ^ length bs + get_be bs

pub length-put_be : (k v : ℕ) → length (put_be k v) ≡ k
unfolding put_be
length-put_be zero v = refl
length-put_be (suc k) v = ap suc (length-put_be k v)

pub put_be-IsByte : (k v : ℕ) → All IsByte (put_be k v)
unfolding put_be
put_be-IsByte zero v = tt
put_be-IsByte (suc k) v = (omega arith, put_be-IsByte k v)

pow_pos : (k : ℕ) → 0 < 256 ^ k
pow_pos k = one-le-pow k 256 (omega arith)

-- Cutting off the digits above the first k.
mod_split : (v p : ℕ) → 0 < p → v % (p * 256) ≡ v / p % 256 * p + v % p
mod_split v p h =
    ap (λ (t : ℕ). t % (p * 256)) whole
    ∙ mul-add-mod_self_left (p * 256) (v / p / 256) (v / p % 256 * p + v % p)
    ∙ mod-eq_of_lt small
  where
    whole : v ≡ p * 256 * (v / p / 256) + (v / p % 256 * p + v % p)
    whole = omega (arith, div-add-mod v p, ap (λ (t : ℕ). p * t) (div-add-mod (v / p) 256))

    small : v / p % 256 * p + v % p < p * 256
    small = grind (arith, mod-lt v h)

pub get_be-put_be_mod : (k v : ℕ) → get_be (put_be k v) ≡ v % 256 ^ k
unfolding put_be get_be
get_be-put_be_mod zero v = omega arith
get_be-put_be_mod (suc k) v =
    rw (length-put_be, get_be-put_be_mod k v, pow-suc) (sym (mod_split v (256 ^ k) (pow_pos k)))

-- What was written is read back, where it fits the width.
pub get_be-put_be : (k v : ℕ) → v < 256 ^ k → get_be (put_be k v) ≡ v
get_be-put_be k v h = get_be-put_be_mod k v ∙ mod-eq_of_lt h

-- The value of k bytes fits the width.
pub get_be-lt : (bs : List ℕ) → All IsByte bs → get_be bs < 256 ^ length bs
unfolding get_be
get_be-lt [] h = omega arith
get_be-lt (b ∷ bs) h = rw pow-suc (grind (arith, get_be-lt bs h.1))
