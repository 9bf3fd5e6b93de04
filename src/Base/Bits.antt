-- ===== src/Base/Bits.antt =====
-- `x ^ (1 << k)` on k + 1 bits: flipping the top bit is adding it, without the carry.
use Prim.Native.Nat.{
  ℕ, zero, suc, ◌+◌, ◌-◌, ◌*◌, ◌/◌, ◌%◌, ◌^◌, ◌≤◌, ◌<◌, bit_xor, digits, differ, bit_xor-bitwise,
}
use mathlib.Core.Path.{◌≡◌, refl, ◌∙◌}
use native.Mathlib.Decide.{dec_lt}
use native.Mathlib.Nat.{pow-suc, mod-eq_of_lt, mod-eq-sub-mod}
use native.Mathlib.Omega.{arith}

abbrev xor_digits : ℕ → ℕ → ℕ → ℕ
xor_digits k a b = digits (λ y. y) differ k a b

zero-bit_xor : (b : ℕ) → bit_xor 0 b ≡ b
zero-bit_xor b = bit_xor-bitwise 0 b

-- Any fuel from the left operand on computes the native operation.
xor_digits-eq : (n k a b : ℕ) → k ≤ n → a ≤ k → xor_digits k a b ≡ bit_xor a b
xor_digits-eq n zero zero b kn ak = rw zero-bit_xor
xor_digits-eq n (suc k) zero b kn ak = rw zero-bit_xor
xor_digits-eq n zero (suc a) b kn ak = absurd (omega arith)
xor_digits-eq zero (suc k) (suc a) b kn ak = absurd (omega arith)
xor_digits-eq (suc n) (suc k) (suc a) b kn ak = omega (
  arith,
  bit_xor-bitwise (suc a) b,
  xor_digits-eq n k (suc a / 2) (b / 2) (omega arith) (omega arith),
  xor_digits-eq n a (suc a / 2) (b / 2) (omega arith) (omega arith),
)

bit_xor_step : (a b : ℕ) → bit_xor a b ≡ bit_xor (a / 2) (b / 2) * 2 + differ (a % 2) (b % 2)
bit_xor_step zero b = omega (arith, zero-bit_xor b, zero-bit_xor (b / 2))
bit_xor_step (suc a) b = omega (
  arith,
  bit_xor-bitwise (suc a) b,
  xor_digits-eq a a (suc a / 2) (b / 2) (omega arith) (omega arith),
)

differ-zero : (x : ℕ) → differ x 0 ≡ x
differ-zero zero = refl
differ-zero (suc x) = refl

-- Adding p modulo m = 2 * p either adds p or takes it off.
wrap_below : (u p m : ℕ) → m ≡ 2 * p → u < p → (u + p) % m ≡ u + p
wrap_below u p m e h = mod-eq_of_lt (omega arith)

wrap_above : (u p m : ℕ) → m ≡ 2 * p → p ≤ u → u < m → (u + p) % m ≡ u - p
wrap_above u p m e h lt = mod-eq-sub-mod (omega arith) ∙ mod-eq_of_lt (omega arith) ∙ omega arith

wrap_double :
    (u p m n : ℕ) → m ≡ 2 * p → n ≡ 2 * m → u < n → (u / 2 + p) % m * 2 + u % 2 ≡ (u + m) % n
wrap_double u p m n e f h = elim (dec_lt (u / 2) p) [
  | yes lt ↦ omega (arith, wrap_below (u / 2) p m e lt, wrap_below u m n f (omega arith))
  | no ge ↦ omega (
    arith,
    wrap_above (u / 2) p m e (omega arith) (omega arith),
    wrap_above u m n f (omega arith) h,
  )
]

-- On k + 1 bits.
pub bit_xor-top : (k u : ℕ) → u < 2 ^ suc k → bit_xor u (2 ^ k) ≡ (u + 2 ^ k) % 2 ^ suc k
bit_xor-top zero zero h = refl
bit_xor-top zero (suc zero) h = refl
bit_xor-top zero (suc (suc u)) h = absurd (omega arith)
bit_xor-top (suc k) u h =
    bit_xor_step u (2 ^ suc k)
    ∙ rw (half, even, differ-zero, bit_xor-top k (u / 2) (omega (arith, pow-suc 2 (suc k))))
        (wrap_double u (2 ^ k) (2 ^ suc k) (2 ^ suc (suc k)) double double' h)
  where
    double : 2 ^ suc k ≡ 2 * 2 ^ k
    double = omega (arith, pow-suc 2 k)

    double' : 2 ^ suc (suc k) ≡ 2 * 2 ^ suc k
    double' = omega (arith, pow-suc 2 (suc k))

    half : 2 ^ suc k / 2 ≡ 2 ^ k
    half = omega (arith, pow-suc 2 k)

    even : 2 ^ suc k % 2 ≡ 0
    even = omega (arith, pow-suc 2 k)
