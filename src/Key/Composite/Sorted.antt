-- ===== src/Key/Composite/Sorted.antt =====
-- Sort composites: what the encoding writes, that decoding undoes it, and its order.
use Prim.Native.Nat.{compare, Ordering}
use plomvix.Base.{
  ℕ, ◌+◌, ◌≡◌, refl, sym, ap, ◌∙◌, List, [], ◌∷◌, ◌++◌, arith, append-nil, append_assoc, All,
  Result, ok, length, length-append, take, drop-append, take-append, ◌>>=◌,
}
use plomvix.Base.Bytes.{put_be, get_be, length-put_be, get_be-put_be}
use plomvix.Base.Bytes.Order.{compare_bytes, then_compare, compare-put_be}
use plomvix.Base.Int.{IsU64, signed64, compare_ℤ}
use plomvix.Key.{Error, Key, Kind, Field, flip_sign, uint64_at, validate_field, compare_key}
use plomvix.Key.Scalar.{flip_sign-IsU64, flip_sign-flip_sign}
use plomvix.Key.Order.{compare-flip_sign}
use plomvix.Key.Composite.{
  Any, field_at, encode_sort_loop, encode_sort_composite, decode_sort_fields, decode_sort_composite,
}

-- The values that a sort composite takes: 64-bit numbers.
abbrev pub IsSortable : Any → Type 0
IsSortable (Any.uint64 v) = IsU64 v
IsSortable (Any.int64 v) = IsU64 v
IsSortable _ = ⊥

-- What the encoding of a list of numbers consists of.
sort_bytes : List Any → List ℕ
sort_bytes [] = []
sort_bytes (Any.uint64 v ∷ rest) = put_be 8 v ++ sort_bytes rest
sort_bytes (Any.int64 v ∷ rest) = put_be 8 (flip_sign v) ++ sort_bytes rest
sort_bytes (_ ∷ rest) = sort_bytes rest

sort_fields : List Any → ℕ → List Field
sort_fields [] pos = []
sort_fields (Any.uint64 v ∷ rest) pos = field_at Kind.uint64 pos 8 ∷ sort_fields rest (pos + 8)
sort_fields (Any.int64 v ∷ rest) pos = field_at Kind.int64 pos 8 ∷ sort_fields rest (pos + 8)
sort_fields (_ ∷ rest) pos = sort_fields rest pos

encode_sort_loop-eq :
    (xs : List Any) (d : List ℕ) (fs : List Field) (pos : ℕ)
    → All IsSortable xs
    → encode_sort_loop xs d fs pos
      ≡ ok (record { data_bytes = d ++ sort_bytes xs; fields = fs ++ sort_fields xs pos })
unfolding encode_sort_loop sort_bytes sort_fields
encode_sort_loop-eq [] d fs pos h = simp append-nil
encode_sort_loop-eq (Any.uint64 v ∷ xs) d fs pos h =
    encode_sort_loop-eq xs _ _ _ h.1 ∙ simp append_assoc
encode_sort_loop-eq (Any.int64 v ∷ xs) d fs pos h =
    encode_sort_loop-eq xs _ _ _ h.1 ∙ simp append_assoc
encode_sort_loop-eq (Any.string s ∷ xs) d fs pos h = absurd h.0
encode_sort_loop-eq (Any.bytes s ∷ xs) d fs pos h = absurd h.0
encode_sort_loop-eq (Any.unsupported ∷ xs) d fs pos h = absurd h.0

-- Eight bytes at the seam of what stands before them.
pub uint64_at-seam :
    (pre post : List ℕ) (off u : ℕ)
    → off ≡ length pre
    → IsU64 u
    → uint64_at (pre ++ (put_be 8 u ++ post)) off ≡ u
unfolding uint64_at
uint64_at-seam pre post off u e h =
    ap (λ (l : List ℕ). get_be (take 8 l)) (drop-append off pre (put_be 8 u ++ post) (sym e))
    ∙ ap get_be (take-append 8 (put_be 8 u) post (length-put_be 8 u))
    ∙ get_be-put_be 8 u h

pub validate-seam :
    (pre w post : List ℕ) (k : Kind) (off : ℕ)
    → off ≡ length pre
    → length w ≡ 8
    → validate_field (pre ++ (w ++ post)) (field_at k off 8) ≡ ok tt
unfolding validate_field
validate-seam pre w post k off e h =
    ground (arith, length-append pre (w ++ post), length-append w post)

decode-regroup :
    (pre w t : List ℕ) (fs : List Field) (r : Result Error (List Any))
    → decode_sort_fields ((pre ++ w) ++ t) fs ≡ r
    → decode_sort_fields (pre ++ (w ++ t)) fs ≡ r
decode-regroup pre w t fs r h = rw append_assoc at h

next_pos :
    (pre w : List ℕ) (pos : ℕ) → pos ≡ length pre → length w ≡ 8 → pos + 8 ≡ length (pre ++ w)
next_pos pre w pos e h = omega (arith, length-append pre w)

decode_sort_fields-eq :
    (xs : List Any) (pre : List ℕ) (pos : ℕ)
    → pos ≡ length pre
    → All IsSortable xs
    → decode_sort_fields (pre ++ sort_bytes xs) (sort_fields xs pos) ≡ ok xs
unfolding decode_sort_fields sort_bytes sort_fields
decode_sort_fields-eq [] pre pos e h = refl
decode_sort_fields-eq (Any.uint64 v ∷ xs) pre pos e h =
    let w : List ℕ = put_be 8 v in
    let e' : pos + 8 ≡ length (pre ++ w) = next_pos pre w pos e (length-put_be 8 v) in
    rw (
      validate-seam pre w (sort_bytes xs) Kind.uint64 pos e (length-put_be 8 v),
      uint64_at-seam pre (sort_bytes xs) pos v e h.0,
      decode-regroup pre w (sort_bytes xs) _ _
          (decode_sort_fields-eq xs (pre ++ w) (pos + 8) e' h.1),
    )
decode_sort_fields-eq (Any.int64 v ∷ xs) pre pos e h =
    let w : List ℕ = put_be 8 (flip_sign v) in
    let l : length w ≡ 8 = length-put_be 8 (flip_sign v) in
    let e' : pos + 8 ≡ length (pre ++ w) = next_pos pre w pos e l in
    rw (
      validate-seam pre w (sort_bytes xs) Kind.int64 pos e l,
      uint64_at-seam pre (sort_bytes xs) pos (flip_sign v) e (flip_sign-IsU64 v h.0),
      flip_sign-flip_sign v h.0,
      decode-regroup pre w (sort_bytes xs) _ _
          (decode_sort_fields-eq xs (pre ++ w) (pos + 8) e' h.1),
    )
decode_sort_fields-eq (Any.string s ∷ xs) pre pos e h = absurd h.0
decode_sort_fields-eq (Any.bytes s ∷ xs) pre pos e h = absurd h.0
decode_sort_fields-eq (Any.unsupported ∷ xs) pre pos e h = absurd h.0

encode_sort_composite-eq :
    (xs : List Any)
    → All IsSortable xs
    → encode_sort_composite xs
      ≡ ok (record { data_bytes = sort_bytes xs; fields = sort_fields xs 0 })
unfolding encode_sort_composite
encode_sort_composite-eq xs h = encode_sort_loop-eq xs [] [] 0 h

-- Decoding a sort composite of at least one 64-bit number gives back the numbers.
pub decode_sort-encode_sort :
    (x : Any) (xs : List Any)
    → All IsSortable (x ∷ xs)
    → (encode_sort_composite (x ∷ xs) >>= decode_sort_composite) ≡ ok (x ∷ xs)
unfolding decode_sort_composite sort_fields sort_bytes
decode_sort-encode_sort (Any.uint64 v) xs h =
    rw (encode_sort_composite-eq (Any.uint64 v ∷ xs) h)
      (decode_sort_fields-eq (Any.uint64 v ∷ xs) [] 0 refl h)
decode_sort-encode_sort (Any.int64 v) xs h =
    rw (encode_sort_composite-eq (Any.int64 v ∷ xs) h)
      (decode_sort_fields-eq (Any.int64 v ∷ xs) [] 0 refl h)
decode_sort-encode_sort (Any.string s) xs h = absurd h.0
decode_sort-encode_sort (Any.bytes b) xs h = absurd h.0
decode_sort-encode_sort Any.unsupported xs h = absurd h.0

-- Lexicographic order of two lists of numbers: unsigned ones as numbers, int64s as integers.
abbrev pub compare_values : List Any → List Any → Ordering
compare_values (Any.uint64 u ∷ xs) (Any.uint64 v ∷ ys) =
    then_compare (compare u v) (compare_values xs ys)
compare_values (Any.int64 u ∷ xs) (Any.int64 v ∷ ys) =
    then_compare (compare_ℤ (signed64 u) (signed64 v)) (compare_values xs ys)
compare_values _ _ = Ordering.eq

-- Two lists of values of the same kinds.
abbrev pub SameKinds : List Any → List Any → Type 0
SameKinds [] [] = Unit
SameKinds (Any.uint64 u ∷ xs) (Any.uint64 v ∷ ys) = SameKinds xs ys
SameKinds (Any.int64 u ∷ xs) (Any.int64 v ∷ ys) = SameKinds xs ys
SameKinds _ _ = ⊥

compare-sort_bytes :
    (xs ys : List Any)
    → All IsSortable xs
    → All IsSortable ys
    → SameKinds xs ys
    → compare_bytes (sort_bytes xs) (sort_bytes ys) ≡ compare_values xs ys
unfolding sort_bytes compare_bytes
compare-sort_bytes [] [] hx hy s = refl
compare-sort_bytes (Any.uint64 u ∷ xs) (Any.uint64 v ∷ ys) hx hy s = rw (
  compare-put_be 8 u v (sort_bytes xs) (sort_bytes ys) hx.0 hy.0,
  compare-sort_bytes xs ys hx.1 hy.1 s,
)
compare-sort_bytes (Any.int64 u ∷ xs) (Any.int64 v ∷ ys) hx hy s = rw (
  compare-put_be 8 _ _ (sort_bytes xs) (sort_bytes ys) (flip_sign-IsU64 u hx.0)
      (flip_sign-IsU64 v hy.0),
  compare-flip_sign u v hx.0 hy.0,
  compare-sort_bytes xs ys hx.1 hy.1 s,
)
compare-sort_bytes _ _ hx hy s = absurd s

-- Sort composites of values of the same kinds compare as the lists of values.
pub compare_key-encode_sort :
    (xs ys : List Any) (k l : Key)
    → All IsSortable xs
    → All IsSortable ys
    → SameKinds xs ys
    → encode_sort_composite xs ≡ ok k
    → encode_sort_composite ys ≡ ok l
    → compare_key k l ≡ compare_values xs ys
unfolding compare_key
compare_key-encode_sort xs ys k l hx hy s ek el = cc (
  ek,
  el,
  encode_sort_composite-eq xs hx,
  encode_sort_composite-eq ys hy,
  compare-sort_bytes xs ys hx hy s,
)
