-- ===== src/Key/Composite/Storage.antt =====
-- Storage composites: the bytes alone, parsed with the kinds of the fields, give back the values.
use plomvix.Base.{
  ℕ, ◌+◌, ◌^◌, ◌<◌, ◌≤◌, ◌≡◌, refl, sym, ap, ◌∙◌, List, [], ◌∷◌, ◌++◌, arith, append-nil,
  append_assoc, All, ok, length, length-append, take, drop-append, take-append, false, map, ltb,
  ==_refl,
}
use plomvix.Base.Bytes.{put_be, get_be, length-put_be, get_be-put_be}
use native.Mathlib.Nat.{mod-eq_of_lt, add_assoc}
use plomvix.Base.Int.{IsU64}
use plomvix.Key.{Key, Kind, Field, zero_in, flip_sign, slice, validate_field}
use plomvix.Key.Scalar.{flip_sign-IsU64, flip_sign-flip_sign}
use plomvix.Key.Composite.Sorted.{uint64_at-seam, validate-seam}
use plomvix.Key.Composite.{
  Any, field_at, storage_value, encode_storage_loop, encode_storage_composite,
  decode_storage_fields, decode_storage_composite, parse_storage_loop, parse_storage_composite_key,
}

-- The values that a storage composite takes: 64-bit numbers, texts without zero bytes, and bytes,
-- each shorter than 2 ^ 32.
abbrev pub IsStorable : Any → Type 0
IsStorable (Any.uint64 v) = IsU64 v
IsStorable (Any.int64 v) = IsU64 v
IsStorable (Any.string s) = (zero_in s ≡ false) × (length s < 2 ^ 32)
IsStorable (Any.bytes b) = length b < 2 ^ 32
IsStorable Any.unsupported = ⊥

abbrev pub kind_of_any : Any → Kind
kind_of_any (Any.uint64 v) = Kind.uint64
kind_of_any (Any.int64 v) = Kind.int64
kind_of_any (Any.string s) = Kind.string
kind_of_any (Any.bytes b) = Kind.bytes
kind_of_any Any.unsupported = Kind.other

-- What a field holds behind its length.
payload : Any → List ℕ
payload (Any.uint64 v) = put_be 8 v
payload (Any.int64 v) = put_be 8 (flip_sign v)
payload (Any.string s) = s
payload (Any.bytes b) = b
payload Any.unsupported = []

storage_bytes : List Any → List ℕ
storage_bytes [] = []
storage_bytes (x ∷ xs) = put_be 4 (length (payload x)) ++ (payload x ++ storage_bytes xs)

storage_fields : List Any → ℕ → List Field
storage_fields [] pos = []
storage_fields (x ∷ xs) pos =
    field_at (kind_of_any x) (pos + 4) (length (payload x))
    ∷ storage_fields xs (pos + 4 + length (payload x))

payload-lt : (x : Any) → IsStorable x → length (payload x) < 2 ^ 32
unfolding payload
payload-lt (Any.uint64 v) h = omega (arith, length-put_be 8 v)
payload-lt (Any.int64 v) h = omega (arith, length-put_be 8 (flip_sign v))
payload-lt (Any.string s) h = h.1
payload-lt (Any.bytes b) h = h
payload-lt Any.unsupported h = absurd h

-- One field of the loop, in the same form for every kind.
encode_storage-step :
    (x : Any) (xs : List Any) (d : List ℕ) (fs : List Field)
    → IsStorable x
    → encode_storage_loop (x ∷ xs) d fs
      ≡ encode_storage_loop xs
          (d ++ (put_be 4 (length (payload x)) ++ payload x))
          (fs ++ field_at (kind_of_any x) (length d + 4) (length (payload x)) ∷ [])
unfolding encode_storage_loop payload
encode_storage-step (Any.uint64 v) xs d fs h =
    rw (length-append, length-put_be 4 8, length-put_be 8 v, append_assoc)
encode_storage-step (Any.int64 v) xs d fs h =
    rw (length-append, length-put_be 4 8, length-put_be 8 (flip_sign v), append_assoc)
encode_storage-step (Any.string s) xs d fs h =
    rw (h.0, mod-eq_of_lt h.1, length-append, length-put_be, append_assoc)
encode_storage-step (Any.bytes b) xs d fs h =
    rw (mod-eq_of_lt h, length-append, length-put_be, append_assoc)
encode_storage-step Any.unsupported xs d fs h = absurd h

encode_storage_loop-eq :
    (xs : List Any) (d : List ℕ) (fs : List Field)
    → All IsStorable xs
    → encode_storage_loop xs d fs
      ≡ ok (record {
        data_bytes = d ++ storage_bytes xs;
        fields = fs ++ storage_fields xs (length d);
      })
unfolding storage_bytes storage_fields
encode_storage_loop-eq [] d fs h = unfold encode_storage_loop in simp append-nil
encode_storage_loop-eq (x ∷ xs) d fs h =
    encode_storage-step x xs d fs h.0
    ∙ encode_storage_loop-eq xs _ _ h.1
    ∙ simp (append_assoc, length-append, length-put_be, add_assoc)

pub slice-seam :
    (pre w post : List ℕ) (off n : ℕ)
    → off ≡ length pre
    → n ≡ length w
    → slice (pre ++ (w ++ post)) off n ≡ w
slice-seam pre w post off n e f =
    ap (take n) (drop-append off pre (w ++ post) (sym e)) ∙ take-append n w post (sym f)

-- One field of the parser's loop.
parse_storage-step :
    (k : Kind) (kinds : List Kind) (pre p post : List ℕ) (pos : ℕ) (fields : List Field)
    → pos ≡ length pre
    → length p < 2 ^ 32
    → parse_storage_loop (k ∷ kinds) (pre ++ (put_be 4 (length p) ++ (p ++ post))) pos fields
      ≡ parse_storage_loop kinds
          (pre ++ (put_be 4 (length p) ++ (p ++ post)))
          (pos + 4 + length p)
          (fields ++ field_at k (pos + 4) (length p) ∷ [])
unfolding parse_storage_loop
parse_storage-step k kinds pre p post pos fields e h =
    rw (
      read,
      fits (pos + 4) (omega (arith, sizes)),
      fits (pos + 4 + length p) (omega (arith, sizes)),
    )
  where
    w : List ℕ
    w = put_be 4 (length p)

    sizes : length (pre ++ (w ++ (p ++ post))) ≡ length pre + (4 + (length p + length post))
    sizes = omega (
      arith,
      length-append pre (w ++ (p ++ post)),
      length-append w (p ++ post),
      length-append p post,
      length-put_be 4 (length p),
    )

    fits :
        (n : ℕ)
        → n ≤ length (pre ++ (w ++ (p ++ post)))
        → ltb (length (pre ++ (w ++ (p ++ post)))) n ≡ false
    fits n le = ground arith

    read : get_be (slice (pre ++ (w ++ (p ++ post))) pos 4) ≡ length p
    read =
        ap get_be (slice-seam pre w (p ++ post) pos 4 e (sym (length-put_be 4 (length p))))
        ∙ get_be-put_be 4 (length p) h

regroup3 : (a b c e : List ℕ) → a ++ (b ++ (c ++ e)) ≡ (a ++ (b ++ c)) ++ e
regroup3 a b c e = simp append_assoc

parse_storage_loop-eq :
    (xs : List Any) (pre : List ℕ) (pos : ℕ) (fields : List Field)
    → pos ≡ length pre
    → All IsStorable xs
    → parse_storage_loop (map kind_of_any xs) (pre ++ storage_bytes xs) pos fields
      ≡ ok (length (pre ++ storage_bytes xs), fields ++ storage_fields xs pos)
unfolding storage_bytes storage_fields
parse_storage_loop-eq [] pre pos fields e h = unfold parse_storage_loop in simp (append-nil, e)
parse_storage_loop-eq (x ∷ xs) pre pos fields e h =
    let p : List ℕ = payload x in
    let w : List ℕ = put_be 4 (length p) in
    let e' : pos + 4 + length p ≡ length (pre ++ (w ++ p)) =
      omega (arith, length-append pre (w ++ p), length-append w p, length-put_be 4 (length p)) in
    parse_storage-step (kind_of_any x) (map kind_of_any xs) pre p (storage_bytes xs) pos fields e
      (payload-lt x h.0)
    ∙ rw regroup3 (
        parse_storage_loop-eq xs (pre ++ (w ++ p)) (pos + 4 + length p) _ e' h.1
        ∙ simp append_assoc)

-- A field that covers a payload is valid, and reads as the value.
field-seam :
    (x : Any) (pre post : List ℕ) (off : ℕ)
    → off ≡ length pre
    → IsStorable x
    → (validate_field
          (pre ++ (payload x ++ post))
          (field_at (kind_of_any x) off (length (payload x)))
        ≡ ok tt)
      × (storage_value (kind_of_any x) (pre ++ (payload x ++ post)) off (length (payload x)) ≡ ok x)
unfolding payload
field-seam (Any.uint64 v) pre post off e h = (
  rw length-put_be (validate-seam pre (put_be 8 v) post Kind.uint64 off e (length-put_be 8 v)),
  ap (λ (n : ℕ). ok (Any.uint64 n)) (uint64_at-seam pre post off v e h),
)
field-seam (Any.int64 v) pre post off e h = (
  rw length-put_be (
      validate-seam pre (put_be 8 (flip_sign v)) post Kind.int64 off e
        (length-put_be 8 (flip_sign v))),
  ap (λ (n : ℕ). ok (Any.int64 (flip_sign n)))
        (uint64_at-seam pre post off (flip_sign v) e (flip_sign-IsU64 v h))
      ∙ ap (λ (n : ℕ). ok (Any.int64 n)) (flip_sign-flip_sign v h),
)
field-seam (Any.string s) pre post off e h = (
  unfold validate_field in ground (arith, length-append pre (s ++ post), length-append s post),
  ap (λ (b : List ℕ). ok (Any.string b)) (slice-seam pre s post off (length s) e refl),
)
field-seam (Any.bytes b) pre post off e h = (
  unfold validate_field in ground (arith, length-append pre (b ++ post), length-append b post),
  ap (λ (c : List ℕ). ok (Any.bytes c)) (slice-seam pre b post off (length b) e refl),
)
field-seam Any.unsupported pre post off e h = absurd h

decode_storage_fields-eq :
    (xs : List Any) (pre : List ℕ) (pos : ℕ)
    → pos ≡ length pre
    → All IsStorable xs
    → decode_storage_fields (pre ++ storage_bytes xs) (storage_fields xs pos) ≡ ok xs
unfolding decode_storage_fields storage_bytes storage_fields
decode_storage_fields-eq [] pre pos e h = refl
decode_storage_fields-eq (x ∷ xs) pre pos e h =
    let p : List ℕ = payload x in
    let w : List ℕ = put_be 4 (length p) in
    let l : length (pre ++ w) ≡ length pre + 4 =
      omega (arith, length-append pre w, length-put_be 4 (length p)) in
    let e' : pos + 4 + length p ≡ length ((pre ++ w) ++ p) =
      omega (arith, length-append (pre ++ w) p) in
    let (valid, value) = field-seam x (pre ++ w) (storage_bytes xs) (pos + 4) (omega arith) h.0 in
    let rest = decode_storage_fields-eq xs ((pre ++ w) ++ p) (pos + 4 + length p) e' h.1 in
    rw (
      rw (append_assoc pre w) at valid,
      rw (append_assoc pre w) at value,
      rw (append_assoc (pre ++ w), append_assoc pre w) at rest,
    )

encode_storage_composite-eq :
    (xs : List Any)
    → All IsStorable xs
    → encode_storage_composite xs
      ≡ ok (record { data_bytes = storage_bytes xs; fields = storage_fields xs 0 })
unfolding encode_storage_composite
encode_storage_composite-eq xs h = encode_storage_loop-eq xs [] [] h

-- From the bytes of a storage composite of at least one storable value and the kinds of the values,
-- the parser rebuilds the key with its fields, and decoding that gives back the values.
pub parse_storage-encode_storage :
    (x : Any) (xs : List Any) (k : Key)
    → All IsStorable (x ∷ xs)
    → encode_storage_composite (x ∷ xs) ≡ ok k
    → (parse_storage_composite_key k.data_bytes (map kind_of_any (x ∷ xs)) ≡ ok k)
      × (decode_storage_composite k ≡ ok (x ∷ xs))
parse_storage-encode_storage x xs k h e =
    let key : k
        ≡ record { data_bytes = storage_bytes (x ∷ xs); fields = storage_fields (x ∷ xs) 0 } =
      cc (encode_storage_composite-eq (x ∷ xs) h) in
    rw key (parsed, decoded)
  where
    parsed :
        parse_storage_composite_key (storage_bytes (x ∷ xs)) (map kind_of_any (x ∷ xs))
        ≡ ok (record { data_bytes = storage_bytes (x ∷ xs); fields = storage_fields (x ∷ xs) 0 })
    parsed =
        unfold parse_storage_composite_key in
        rw (parse_storage_loop-eq (x ∷ xs) [] 0 [] refl h, ==_refl)

    decoded :
        decode_storage_composite
          (record { data_bytes = storage_bytes (x ∷ xs); fields = storage_fields (x ∷ xs) 0 })
        ≡ ok (x ∷ xs)
    decoded =
        unfold decode_storage_composite storage_fields in
        decode_storage_fields-eq (x ∷ xs) [] 0 refl h

-- Storable values have a storage composite, with bytes where there is a value.
pub encode_storage_composite-total :
    (x : Any) (xs : List Any)
    → All IsStorable (x ∷ xs)
    → (k : Key) × (encode_storage_composite (x ∷ xs) ≡ ok k) × (0 < length k.data_bytes)
unfolding storage_bytes
encode_storage_composite-total x xs h = (
  record { data_bytes = storage_bytes (x ∷ xs); fields = storage_fields (x ∷ xs) 0 },
  encode_storage_composite-eq (x ∷ xs) h,
  omega (
    arith,
    length-append (put_be 4 (length (payload x))) (payload x ++ storage_bytes xs),
    length-put_be 4 (length (payload x)),
  ),
)
