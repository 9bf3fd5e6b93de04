-- ===== src/Key/Row/Prefix.antt =====
-- PrefixEnd: the scan from a prefix up to its end takes exactly the keys with that prefix.
use Prim.Native.Nat.{compare, Ordering}
use plomvix.Base.{
  ℕ, ◌+◌, ◌%◌, ◌<◌, ◌≡◌, ◌≢◌, ◌↔◌, refl, ◌∙◌, true, false, List, [], ◌∷◌, ◌++◌, Option, none, some,
  arith, All, length, Bool-cases, inl, inr,
}
use plomvix.Base.Bytes.{IsByte}
use plomvix.Base.Bytes.Order.{compare_bytes, compare_bytes_refl, then_compare}
use plomvix.Key.Row.{increment, all_ff, prefix_end}

carry-all_ff : (p : List ℕ) → All IsByte p → (increment p).1 ≡ all_ff p
unfolding increment
carry-all_ff [] h = refl
carry-all_ff (b ∷ p) h = ground (arith, h.0, carry-all_ff p h.1)

-- Where every byte is 0xff, no text of the same length is greater.
full-le :
    (p q : List ℕ)
    → All IsByte q
    → length q ≡ length p
    → all_ff p ≡ true
    → compare_bytes q p ≢ Ordering.gt
unfolding compare_bytes
full-le [] [] h e f = λ g. cc
full-le [] (x ∷ q) h e f = absurd (omega arith)
full-le (b ∷ p) [] h e f = absurd (omega arith)
full-le (b ∷ p) (x ∷ q) h e f = ground (arith, h.0, full-le p q h.1)

increment-carry :
    (b : ℕ) (p : List ℕ)
    → (increment p).1 ≡ true
    → (increment (b ∷ p)).0 ≡ ((b + 1) % 256) ∷ (increment p).0
unfolding increment
increment-carry b p h = rw h

increment-keep :
    (b : ℕ) (p : List ℕ) → (increment p).1 ≡ false → (increment (b ∷ p)).0 ≡ b ∷ (increment p).0
unfolding increment
increment-keep b p h = rw h

-- After the carry only zeros are left, and no text of that length or more is less.
wrapped-ge :
    (p q r : List ℕ)
    → All IsByte p
    → length q ≡ length p
    → all_ff p ≡ true
    → compare_bytes (q ++ r) (increment p).0 ≢ Ordering.lt
unfolding compare_bytes
wrapped-ge [] [] [] hp e f = unfold increment in λ g. cc
wrapped-ge [] [] (y ∷ r) hp e f = unfold increment in λ g. cc
wrapped-ge [] (x ∷ q) r hp e f = absurd (omega arith)
wrapped-ge (b ∷ p) [] r hp e f = absurd (omega arith)
wrapped-ge (b ∷ p) (x ∷ q) r hp e f =
    let f' : all_ff p ≡ true = ground arith in
    rw (increment-carry b p (carry-all_ff p hp.1 ∙ f'))
      (ground (arith, hp.0, f, wrapped-ge p q r hp.1 (omega arith) f'))

-- One byte of the comparison with the end, after a carry and without one.
carry_step :
    (x b : ℕ) (o o' : Ordering)
    → b < 255
    → o ≢ Ordering.lt
    → o' ≢ Ordering.gt
    → (then_compare (compare x ((b + 1) % 256)) o ≡ Ordering.lt)
      ↔ (then_compare (compare x b) o' ≢ Ordering.gt)
carry_step x b o o' hb ho ho' = ground arith

keep_step :
    (x b : ℕ) (o o' : Ordering)
    → (o ≡ Ordering.lt) ↔ (o' ≢ Ordering.gt)
    → (then_compare (compare x b) o ≡ Ordering.lt) ↔ (then_compare (compare x b) o' ≢ Ordering.gt)
keep_step x b o o' h = ground arith

-- Otherwise the end is passed exactly by what is greater than the prefix.
lt-increment :
    (p q r : List ℕ)
    → All IsByte p
    → All IsByte q
    → length q ≡ length p
    → all_ff p ≡ false
    → (compare_bytes (q ++ r) (increment p).0 ≡ Ordering.lt) ↔ (compare_bytes q p ≢ Ordering.gt)
unfolding compare_bytes
lt-increment [] q r hp hq e f = cc
lt-increment (b ∷ p) [] r hp hq e f = absurd (omega arith)
lt-increment (b ∷ p) (x ∷ q) r hp hq e f = elim (Bool-cases (all_ff p)) [
  | inl full ↦ rw (increment-carry b p (carry-all_ff p hp.1 ∙ full)) (
      carry_step x b _ _ (ground arith) (wrapped-ge p q r hp.1 (omega arith) full)
        (full-le p q hq.1 (omega arith) full))
  | inr more ↦
      rw (increment-keep b p (carry-all_ff p hp.1 ∙ more))
        (keep_step x b _ _ (lt-increment p q r hp.1 hq.1 (omega arith) more))
]

-- What starts with a text is not less than it, and nothing else of that length is both.
compare-append :
    (p q r : List ℕ)
    → length q ≡ length p
    → (compare_bytes p (q ++ r) ≢ Ordering.gt) ↔ (compare_bytes p q ≢ Ordering.gt)
unfolding compare_bytes
compare-append [] [] [] e = ((λ h. h), (λ h. h))
compare-append [] [] (y ∷ r) e = ((λ h g. cc), (λ h g. cc))
compare-append [] (x ∷ q) r e = absurd (omega arith)
compare-append (b ∷ p) [] r e = absurd (omega arith)
compare-append (b ∷ p) (x ∷ q) r e = ground (arith, compare-append p q r (omega arith))

antisym : (p q : List ℕ) → compare_bytes p q ≢ Ordering.gt → compare_bytes q p ≢ Ordering.gt → q ≡ p
unfolding compare_bytes
antisym [] [] h g = refl
antisym [] (x ∷ q) h g = absurd (g refl)
antisym (b ∷ p) [] h g = absurd (h refl)
antisym (b ∷ p) (x ∷ q) h g = ground (arith, antisym p q)

not_gt_refl : (p : List ℕ) → compare_bytes p p ≢ Ordering.gt
not_gt_refl p g = cc (compare_bytes_refl p)

-- Below the end of a scan, where it has one.
abbrev pub IsBefore : List ℕ → Option (List ℕ) → Type 0
IsBefore k none = Unit
IsBefore k (some end) = compare_bytes k end ≡ Ordering.lt

-- For q as long as p: q ++ r is at least p and below PrefixEnd of p, where that is a bound, exactly
-- if q is p. So a scan between the two takes, of the keys no shorter than p, those that start with p.
pub prefix_end-bounds :
    (p q r : List ℕ)
    → All IsByte p
    → All IsByte q
    → length q ≡ length p
    → (q ≡ p) ↔ ((compare_bytes p (q ++ r) ≢ Ordering.gt) × IsBefore (q ++ r) (prefix_end p))
unfolding prefix_end
prefix_end-bounds p q r hp hq e = elim (Bool-cases (all_ff p)) [
  | inl full ↦ rw full (
    (λ same. (at_least same, tt)),
    (λ h. antisym p q ((compare-append p q r e).0 h.0) (full-le p q hq e full)),
  )
  | inr more ↦ rw more (
    (λ same. (at_least same, (lt-increment p q r hp hq e more).1 (rw same (not_gt_refl p)))),
    (λ h. antisym p q ((compare-append p q r e).0 h.0) ((lt-increment p q r hp hq e more).0 h.1)),
  )
]
  where
    at_least : q ≡ p → compare_bytes p (q ++ r) ≢ Ordering.gt
    at_least same = (compare-append p q r e).1 (rw same (not_gt_refl p))
