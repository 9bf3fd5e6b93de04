-- ===== src/Heap/Bitmask.antt =====
-- The bitmask of a row gives its bits back.
use plomvix.Base.{
  ℕ, zero, suc, ◌+◌, ◌*◌, ◌/◌, ◌%◌, ◌≤◌, ◌≡◌, refl, ap, ◌∙◌, Bool, true, false, List, [], ◌∷◌, ◌++◌,
  length, take, drop, length-take, length-drop, take-length, take-append, take-drop, append_assoc,
  append-nil, arith, ◌==◌, if◌then◌else◌,
}
use plomvix.Heap.{byte_of, bitmask, bits_of, mask_bits}

low_bit : (b : Bool) (n : ℕ) → (((if b then 1 else 0) + 2 * n) % 2 == 1) ≡ b
low_bit true n = ground arith
low_bit false n = ground arith

high_bits : (b : Bool) (n : ℕ) → ((if b then 1 else 0) + 2 * n) / 2 ≡ n
high_bits true n = omega arith
high_bits false n = omega arith

length-bits_of : (k b : ℕ) → length (bits_of k b) ≡ k
unfolding bits_of
length-bits_of zero b = refl
length-bits_of (suc k) b = ap suc (length-bits_of k (b / 2))

zero-add : (m : ℕ) → 0 + m ≡ m
zero-add m = omega arith

suc-add : (n m : ℕ) → suc n + m ≡ suc (n + m)
suc-add n m = omega arith

take-seam : (xs ys : List Bool) (m : ℕ) → take (length xs + m) (xs ++ ys) ≡ xs ++ take m ys
take-seam [] ys m = ap (λ k. take k ys) (zero-add m)
take-seam (x ∷ xs) ys m =
    ap (λ k. take k ((x ∷ xs) ++ ys)) (suc-add (length xs) m) ∙ ap (λ l. x ∷ l) (take-seam xs ys m)

-- The bits of a byte begin with those that it was made from.
bits_of-byte_of :
    (k : ℕ) (bits : List Bool)
    → length bits ≤ k
    → (tail : List Bool) × (bits_of k (byte_of bits) ≡ bits ++ tail)
      × (length tail + length bits ≡ k)
unfolding bits_of byte_of
bits_of-byte_of k [] h = (bits_of k 0, refl, omega (arith, length-bits_of k 0))
bits_of-byte_of zero (b ∷ bits) h = absurd (omega (arith, h))
bits_of-byte_of (suc k) (b ∷ bits) h =
    let (tail, e, n) = bits_of-byte_of k bits (omega (arith, h)) in
    (
      tail,
      rw (low_bit b (byte_of bits), high_bits b (byte_of bits)) (ap (λ l. b ∷ l) e),
      omega (arith, n),
    )

pub mask_bits-bitmask :
    (n : ℕ) (bits : List Bool)
    → length bits ≤ 8 * n
    → take (length bits) (mask_bits (bitmask n bits)) ≡ bits
unfolding mask_bits bitmask
mask_bits-bitmask zero [] h = refl
mask_bits-bitmask zero (b ∷ bits) h = absurd (omega (arith, h))
mask_bits-bitmask (suc n) bits h =
    let first : List Bool = take 8 bits in
    let (tail, e, m) = bits_of-byte_of 8 first (omega (arith, length-take 8 bits)) in
    let rest = mask_bits-bitmask n (drop 8 bits) (omega (arith, length-drop 8 bits, h)) in
    ap (λ l. take (length bits) (l ++ mask_bits (bitmask n (drop 8 bits)))) e ∙ joined tail m rest
  where
    more : List Bool
    more = mask_bits (bitmask n (drop 8 bits))

    joined :
        (tail : List Bool)
        → length tail + length (take 8 bits) ≡ 8
        → take (length (drop 8 bits)) more ≡ drop 8 bits
        → take (length bits) ((take 8 bits ++ tail) ++ more) ≡ bits
    joined [] m rest =
        ap (λ l. take (length bits) (l ++ more)) (append-nil (take 8 bits))
        ∙ ap (λ k. take k (take 8 bits ++ more))
            (omega (arith, m, length-drop 8 bits, length-take 8 bits))
        ∙ take-seam (take 8 bits) more (length (drop 8 bits))
        ∙ ap (λ l. take 8 bits ++ l) rest
        ∙ take-drop 8 bits
    joined (t ∷ tail) m rest =
        ap (take (length bits)) (append_assoc (take 8 bits) (t ∷ tail) more)
        ∙ take-append (length bits) (take 8 bits) ((t ∷ tail) ++ more) (ap length short)
        ∙ short
      where
        short : take 8 bits ≡ bits
        short = take-length 8 bits (omega (arith, m, length-take 8 bits))

pub length-bitmask : (n : ℕ) (bits : List Bool) → length (bitmask n bits) ≡ n
unfolding bitmask
length-bitmask zero bits = refl
length-bitmask (suc n) bits = ap suc (length-bitmask n (drop 8 bits))
