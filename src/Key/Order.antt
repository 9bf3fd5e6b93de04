-- ===== src/Key/Order.antt =====
-- The byte order of encoded numbers and texts is the order of their values.
use Prim.Native.Nat.{compare, Ordering}
use plomvix.Base.{ℕ, ◌≡◌, ◌≢◌, refl, ◌∙◌, List, [], arith, append-nil, All, ok}
use plomvix.Base.Bytes.{put_be}
use plomvix.Base.Bytes.Order.{compare_bytes, then_compare, compare-put_be, compare-terminated}
use plomvix.Base.Int.{IsU64, signed64, compare_ℤ}
use plomvix.Key.{Key, flip_sign, compare_key, encode_uint64, encode_int64, encode_string}
use plomvix.Key.Scalar.{flip_sign-eq, flip_sign-IsU64, zero_in-of_All}

-- Flipping the sign bit turns the signed order into the unsigned one.
pub compare-flip_sign :
    (u v : ℕ)
    → IsU64 u
    → IsU64 v
    → compare (flip_sign u) (flip_sign v) ≡ compare_ℤ (signed64 u) (signed64 v)
compare-flip_sign u v hu hv = ground (arith, flip_sign-eq u hu, flip_sign-eq v hv)

then_compare-eq : (o : Ordering) → then_compare o Ordering.eq ≡ o
then_compare-eq Ordering.lt = refl
then_compare-eq Ordering.eq = refl
then_compare-eq Ordering.gt = refl

compare_nil : (o : Ordering) → then_compare o (compare_bytes [] []) ≡ o
unfolding compare_bytes
compare_nil o = then_compare-eq o

compare-put_be_end :
    (u v : ℕ) → IsU64 u → IsU64 v → compare_bytes (put_be 8 u) (put_be 8 v) ≡ compare u v
unfolding compare_bytes
compare-put_be_end u v hu hv =
    let e = compare-put_be 8 u v [] [] hu hv in rw (append-nil, append-nil, then_compare-eq) at e

compare-encode_string :
    (s t : List ℕ) (k l : Key)
    → All (λ c. c ≢ 0) s
    → All (λ c. c ≢ 0) t
    → encode_string s ≡ ok k
    → encode_string t ≡ ok l
    → compare_key k l ≡ compare_bytes s t
unfolding compare_key encode_string
compare-encode_string s t k l hs ht ek el = ground (
  arith,
  zero_in-of_All s hs,
  zero_in-of_All t ht,
  compare-terminated s t [] [] hs ht,
  compare_nil (compare_bytes s t),
)

-- Keys of unsigned numbers compare as the numbers, keys of int64s as the signed integers, and keys
-- of texts without zero bytes as the texts.
pub compare_key-encode :
    (u v : ℕ) (s t : List ℕ) (k l : Key)
    → IsU64 u
    → IsU64 v
    → All (λ c. c ≢ 0) s
    → All (λ c. c ≢ 0) t
    → encode_string s ≡ ok k
    → encode_string t ≡ ok l
    → (compare_key (encode_uint64 u) (encode_uint64 v) ≡ compare u v)
      × (compare_key (encode_int64 u) (encode_int64 v) ≡ compare_ℤ (signed64 u) (signed64 v))
      × (compare_key k l ≡ compare_bytes s t)
unfolding compare_key encode_uint64 encode_int64
compare_key-encode u v s t k l hu hv hs ht ek el = (
  compare-put_be_end u v hu hv,
  compare-put_be_end _ _ (flip_sign-IsU64 u hu) (flip_sign-IsU64 v hv)
      ∙ compare-flip_sign u v hu hv,
  compare-encode_string s t k l hs ht ek el,
)
