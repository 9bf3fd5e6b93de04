-- ===== src/Key/Scalar.antt =====
-- The scalar encodings of key.go decode to what they were made from.
use plomvix.Base.{
  ℕ, ◌+◌, ◌%◌, ◌^◌, ◌≡◌, ◌≢◌, refl, ap, ◌∙◌, false, List, [], ◌∷◌, ◌++◌, arith, if◌then◌else◌,
  length, take-length, All, ok, err, ◌>>=◌,
}
use plomvix.Base.Bytes.{put_be, get_be, length-put_be, get_be-put_be}
use plomvix.Base.Bits.{bit_xor-top}
use plomvix.Base.Int.{IsU64}
use plomvix.Key.{
  zero_in, flip_sign, uint64_at, unterminated, null_byte_in_string, validate_field, encode_uint64,
  encode_int64, encode_string, encode_bytes, decode_uint64, decode_int64, decode_string,
  decode_bytes,
}

pub flip_sign-eq : (u : ℕ) → IsU64 u → flip_sign u ≡ (u + 2 ^ 63) % 2 ^ 64
unfolding flip_sign
flip_sign-eq u h = bit_xor-top 63 u h

pub flip_sign-IsU64 : (u : ℕ) → IsU64 u → IsU64 (flip_sign u)
flip_sign-IsU64 u h = omega (arith, flip_sign-eq u h)

pub flip_sign-flip_sign : (u : ℕ) → IsU64 u → flip_sign (flip_sign u) ≡ u
flip_sign-flip_sign u h =
    omega (arith, flip_sign-eq u h, flip_sign-eq (flip_sign u) (flip_sign-IsU64 u h))

-- A text with no zero byte, as `zero_in` tests it.
pub zero_in-of_All : (s : List ℕ) → All (λ c. c ≢ 0) s → zero_in s ≡ false
zero_in-of_All [] h = refl
zero_in-of_All (c ∷ s) h = ground (arith, h.0, zero_in-of_All s h.1)

unterminated-append : (s : List ℕ) → unterminated (s ++ 0 ∷ []) ≡ ok s
unterminated-append [] = refl
unterminated-append (c ∷ []) = refl
unterminated-append (c ∷ d ∷ s) = rw (unterminated-append (d ∷ s))

pub uint64_at-put_be : (u : ℕ) → IsU64 u → uint64_at (put_be 8 u) 0 ≡ u
unfolding uint64_at
uint64_at-put_be u h =
    ap get_be (take-length 8 (put_be 8 u) (omega (arith, length-put_be 8 u))) ∙ get_be-put_be 8 u h

decode_uint64-encode : (u : ℕ) → IsU64 u → decode_uint64 (encode_uint64 u) ≡ ok u
unfolding decode_uint64 encode_uint64 validate_field
decode_uint64-encode u h = rw (length-put_be, uint64_at-put_be u h)

decode_int64-encode : (v : ℕ) → IsU64 v → decode_int64 (encode_int64 v) ≡ ok v
unfolding decode_int64 encode_int64 validate_field
decode_int64-encode v h =
    rw (length-put_be, uint64_at-put_be _ (flip_sign-IsU64 v h), flip_sign-flip_sign v h)

decode_bytes-encode : (b : List ℕ) → decode_bytes (encode_bytes b) ≡ ok b
unfolding decode_bytes encode_bytes validate_field
decode_bytes-encode b = ground (arith, take-length (length b) b (omega arith))

decode_string-encode :
    (s : List ℕ)
    → (encode_string s >>= decode_string) ≡ (if zero_in s then err null_byte_in_string else ok s)
unfolding decode_string encode_string validate_field
decode_string-encode s =
    let t : List ℕ = s ++ 0 ∷ [] in
    ground (arith, take-length (length t) t (omega arith), unterminated-append s)

-- Decoding gives back the value that a scalar key was made from: an unsigned and a signed number of
-- 64 bits, bytes, and a text, which the encoding refuses exactly if it has a zero byte.
pub decode-encode :
    (u v : ℕ) (s b : List ℕ)
    → IsU64 u
    → IsU64 v
    → (decode_uint64 (encode_uint64 u) ≡ ok u)
      × (decode_int64 (encode_int64 v) ≡ ok v)
      × ((encode_string s >>= decode_string)
          ≡ (if zero_in s then err null_byte_in_string else ok s))
      × (decode_bytes (encode_bytes b) ≡ ok b)
decode-encode u v s b hu hv = (
  decode_uint64-encode u hu,
  decode_int64-encode v hv,
  decode_string-encode s,
  decode_bytes-encode b,
)
