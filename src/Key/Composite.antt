-- ===== src/Key/Composite.antt =====
-- internal/engine/sql/key/key.go: composite keys. A sort composite is the concatenation of
-- fixed-width numbers; a storage composite puts a 4-byte length before each field.
pub mod Sorted
pub mod Storage
use plomvix.Base.{
  ℕ, ◌+◌, ◌-◌, ◌^◌, ◌%◌, Bool, true, false, List, [], ◌∷◌, ◌++◌, Option, none, some, ltb, ◌==◌, not,
  ◌&&◌, if◌then◌else◌, length, Result, ok, err, ◌>>=◌, ◌>>◌,
}
use plomvix.Base.Bytes.{put_be, get_be}
use plomvix.Key.{
  Kind, Error, Field, Key, zero_in, flip_sign, uint64_at, slice, validate_field, invalid_key,
  null_byte_in_string, unsupported_type, unsupported_sort_type, kind_mismatch, not_composite,
}

-- An `any` as the type switches see it; `unsupported` is any other dynamic type, nil included.
pub data Any : Type 0 where
  uint64 : ℕ → Any
  int64 : ℕ → Any
  string : List ℕ → Any
  bytes : List ℕ → Any
  unsupported : Any

abbrev pub field_at : Kind → ℕ → ℕ → Field
field_at k off n = record { kind = k; offset = off; length = n }

-- The loop of EncodeSortComposite over `fields`, with its variables d, fs and pos.
unfoldable pub encode_sort_loop : List Any → List ℕ → List Field → ℕ → Result Error Key
encode_sort_loop [] d fs pos = ok (record { data_bytes = d; fields = fs })
encode_sort_loop (Any.uint64 v ∷ rest) d fs pos =
    encode_sort_loop rest (d ++ put_be 8 v) (fs ++ field_at Kind.uint64 pos 8 ∷ []) (pos + 8)
encode_sort_loop (Any.int64 v ∷ rest) d fs pos =
    encode_sort_loop rest (d ++ put_be 8 (flip_sign v)) (fs ++ field_at Kind.int64 pos 8 ∷ [])
      (pos + 8)
encode_sort_loop (Any.string s ∷ rest) d fs pos = err unsupported_sort_type
encode_sort_loop (Any.bytes b ∷ rest) d fs pos = err unsupported_sort_type
encode_sort_loop (Any.unsupported ∷ rest) d fs pos = err unsupported_type

unfoldable pub encode_sort_composite : List Any → Result Error Key
unfolding encode_sort_loop
encode_sort_composite fields = encode_sort_loop fields [] [] 0

-- One value of DecodeSortComposite, after its field is validated.
abbrev pub sort_value : Kind → List ℕ → ℕ → Result Error Any
sort_value Kind.uint64 bs off = ok (Any.uint64 (uint64_at bs off))
sort_value Kind.int64 bs off = ok (Any.int64 (flip_sign (uint64_at bs off)))
sort_value _ bs off = err kind_mismatch

unfoldable pub decode_sort_fields : List ℕ → List Field → Result Error (List Any)
decode_sort_fields bs [] = ok []
decode_sort_fields bs (f ∷ fs) = do
  validate_field bs f
  v ← sort_value f.kind bs f.offset
  vs ← decode_sort_fields bs fs
  ok (v ∷ vs)

abbrev pub composite_fields : List Field → Result Error (List Field)
composite_fields [] = err not_composite
composite_fields (f ∷ fs) = ok (f ∷ fs)

unfoldable pub decode_sort_composite : Key → Result Error (List Any)
unfolding decode_sort_fields
decode_sort_composite k = do fs ← composite_fields k.fields; decode_sort_fields k.data_bytes fs

-- appendLen4: PutUint32(b, uint32(n)) keeps the low 32 bits of n.
abbrev pub append_len4 : List ℕ → ℕ → List ℕ
append_len4 d n = d ++ put_be 4 (n % 2 ^ 32)

unfoldable pub encode_storage_loop : List Any → List ℕ → List Field → Result Error Key
encode_storage_loop [] d fs = ok (record { data_bytes = d; fields = fs })
encode_storage_loop (Any.uint64 v ∷ rest) d fs =
    let d' = append_len4 d 8 in
    encode_storage_loop rest (d' ++ put_be 8 v) (fs ++ field_at Kind.uint64 (length d') 8 ∷ [])
encode_storage_loop (Any.int64 v ∷ rest) d fs =
    let d' = append_len4 d 8 in
    encode_storage_loop rest (d' ++ put_be 8 (flip_sign v))
      (fs ++ field_at Kind.int64 (length d') 8 ∷ [])
encode_storage_loop (Any.string s ∷ rest) d fs =
    let d' = append_len4 d (length s) in
    let more =
      encode_storage_loop rest (d' ++ s) (fs ++ field_at Kind.string (length d') (length s) ∷ []) in
    if zero_in s then err null_byte_in_string else more
encode_storage_loop (Any.bytes b ∷ rest) d fs =
    let d' = append_len4 d (length b) in
    encode_storage_loop rest (d' ++ b) (fs ++ field_at Kind.bytes (length d') (length b) ∷ [])
encode_storage_loop (Any.unsupported ∷ rest) d fs = err unsupported_type

unfoldable pub encode_storage_composite : List Any → Result Error Key
unfolding encode_storage_loop
encode_storage_composite fields = encode_storage_loop fields [] []

abbrev pub storage_value : Kind → List ℕ → ℕ → ℕ → Result Error Any
storage_value Kind.uint64 bs off n = ok (Any.uint64 (uint64_at bs off))
storage_value Kind.int64 bs off n = ok (Any.int64 (flip_sign (uint64_at bs off)))
storage_value Kind.string bs off n = ok (Any.string (slice bs off n))
storage_value Kind.bytes bs off n = ok (Any.bytes (slice bs off n))
storage_value Kind.other bs off n = err kind_mismatch

unfoldable pub decode_storage_fields : List ℕ → List Field → Result Error (List Any)
decode_storage_fields bs [] = ok []
decode_storage_fields bs (f ∷ fs) = do
  validate_field bs f
  v ← storage_value f.kind bs f.offset f.length
  vs ← decode_storage_fields bs fs
  ok (v ∷ vs)

unfoldable pub decode_storage_composite : Key → Result Error (List Any)
unfolding decode_storage_fields
decode_storage_composite k = do
  fs ← composite_fields k.fields
  decode_storage_fields k.data_bytes fs

-- The loop of ParseStorageCompositeKey over `kinds`, with its variables pos and fields.
unfoldable pub parse_storage_loop :
    List Kind → List ℕ → ℕ → List Field → Result Error (ℕ × List Field)
parse_storage_loop [] bs pos fields = ok (pos, fields)
parse_storage_loop (k ∷ kinds) bs pos fields =
    let n = get_be (slice bs pos 4) in
    let more = parse_storage_loop kinds bs (pos + 4 + n) (fields ++ field_at k (pos + 4) n ∷ []) in
    if ltb (length bs) (pos + 4)
    then err invalid_key
    else if ltb (length bs) (pos + 4 + n)
    then err invalid_key
    else more

unfoldable pub parse_storage_composite_key : List ℕ → List Kind → Result Error Key
unfolding parse_storage_loop
parse_storage_composite_key bs [] = err invalid_key
parse_storage_composite_key bs (k ∷ kinds) = do
  (pos, fields) ← parse_storage_loop (k ∷ kinds) bs 0 []
  if pos == length bs then ok (record { data_bytes = bs; fields = fields }) else err invalid_key
