-- ===== src/Key/Runs.antt =====
-- Concrete runs of the key encodings, and the theorems at concrete inputs.
use Prim.Native.Nat.{Ordering}
use plomvix.Base.{
  ℕ, ◌-◌, ◌^◌, ◌≡◌, ◌≢◌, ◌↔◌, refl, List, [], ◌∷◌, ◌++◌, arith, some, ok, err, map, ◌>>=◌,
}
use plomvix.Base.Bytes.{put_be}
use plomvix.Base.Bytes.Order.{compare_bytes}
use plomvix.Key.{
  Error, Kind, Value, Key, kind_of, flip_sign, compare_key, encode_uint64, encode_int64,
  encode_string, encode_bytes, decode_uint64, decode_int64, decode_string, decode_bytes, scalar,
}
use plomvix.Key.Scalar.{decode-encode}
use plomvix.Key.Order.{compare_key-encode}
use plomvix.Key.Composite.{
  Any, encode_sort_composite, decode_sort_composite, encode_storage_composite,
  decode_storage_composite, parse_storage_composite_key, field_at,
}
use plomvix.Key.Composite.Sorted.{decode_sort-encode_sort, compare_key-encode_sort}
use plomvix.Key.Composite.Storage.{kind_of_any, parse_storage-encode_storage}
use plomvix.Key.Row.{encode_table_row_key, decode_table_row_key, decode_columns, prefix_end}
use plomvix.Key.Row.RoundTrip.{decode-encode_table_row_key}
use plomvix.Key.Row.Prefix.{IsBefore, prefix_end-bounds}

-- -1 as a 64-bit pattern.
abbrev minus_one : ℕ
minus_one = 2 ^ 64 - 1

decode-encode_example :
    (decode_uint64 (encode_uint64 7) ≡ ok 7)
    × (decode_int64 (encode_int64 minus_one) ≡ ok minus_one)
    × ((encode_string (b'h' ∷ b'i' ∷ []) >>= decode_string) ≡ ok (b'h' ∷ b'i' ∷ []))
    × (decode_bytes (encode_bytes (0 ∷ 9 ∷ [])) ≡ ok (0 ∷ 9 ∷ []))
decode-encode_example =
    decode-encode 7 minus_one (b'h' ∷ b'i' ∷ []) (0 ∷ 9 ∷ []) (omega arith) (omega arith)

abbrev hi_key : Key
hi_key = scalar Kind.string (b'h' ∷ b'i' ∷ 0 ∷ [])

abbrev ho_key : Key
ho_key = scalar Kind.string (b'h' ∷ b'o' ∷ 0 ∷ [])

hi_encodes : encode_string (b'h' ∷ b'i' ∷ []) ≡ ok hi_key
unfolding encode_string
hi_encodes = refl

ho_encodes : encode_string (b'h' ∷ b'o' ∷ []) ≡ ok ho_key
unfolding encode_string
ho_encodes = refl

compare_key-encode_example :
    (compare_key (encode_uint64 3) (encode_uint64 minus_one) ≡ Ordering.lt)
    × (compare_key (encode_int64 3) (encode_int64 minus_one) ≡ Ordering.gt)
    × (compare_key hi_key ho_key ≡ compare_bytes (b'h' ∷ b'i' ∷ []) (b'h' ∷ b'o' ∷ []))
compare_key-encode_example =
    compare_key-encode 3 minus_one (b'h' ∷ b'i' ∷ []) (b'h' ∷ b'o' ∷ []) hi_key ho_key (omega arith)
      (omega arith) (omega arith) (omega arith) hi_encodes ho_encodes

abbrev pair_values : List Any
pair_values = Any.uint64 5 ∷ Any.int64 minus_one ∷ []

decode_sort-encode_sort_example :
    (encode_sort_composite pair_values >>= decode_sort_composite) ≡ ok pair_values
decode_sort-encode_sort_example =
    decode_sort-encode_sort (Any.uint64 5) (Any.int64 minus_one ∷ []) (omega arith)

abbrev other_values : List Any
other_values = Any.uint64 5 ∷ Any.int64 2 ∷ []

abbrev sort_key : ℕ → ℕ → Key
sort_key a b = record {
  data_bytes = put_be 8 a ++ put_be 8 (flip_sign b);
  fields = field_at Kind.uint64 0 8 ∷ field_at Kind.int64 8 8 ∷ [];
}

compare_key-encode_sort_example : compare_key (sort_key 5 minus_one) (sort_key 5 2) ≡ Ordering.lt
compare_key-encode_sort_example =
    compare_key-encode_sort pair_values other_values (sort_key 5 minus_one) (sort_key 5 2)
      (omega arith) (omega arith) tt (unfold encode_sort_composite put_be flip_sign in refl)
      (unfold encode_sort_composite put_be flip_sign in refl)

abbrev text_values : List Any
text_values = Any.string (b'a' ∷ []) ∷ Any.bytes (0 ∷ []) ∷ []

abbrev text_key : Key
text_key = record {
  data_bytes = 0 ∷ 0 ∷ 0 ∷ 1 ∷ b'a' ∷ 0 ∷ 0 ∷ 0 ∷ 1 ∷ 0 ∷ [];
  fields = field_at Kind.string 4 1 ∷ field_at Kind.bytes 9 1 ∷ [];
}

text_encodes : encode_storage_composite text_values ≡ ok text_key
unfolding encode_storage_composite put_be
text_encodes = refl

parse_storage-encode_storage_example :
    (parse_storage_composite_key text_key.data_bytes (map kind_of_any text_values) ≡ ok text_key)
    × (decode_storage_composite text_key ≡ ok text_values)
parse_storage-encode_storage_example =
    parse_storage-encode_storage (Any.string (b'a' ∷ [])) (Any.bytes (0 ∷ []) ∷ []) text_key
      ((refl, omega arith), (omega arith, tt)) text_encodes

abbrev row_key : List ℕ
row_key = 1 ∷ put_be 8 7 ++ ((b'k' ∷ 0 ∷ []) ++ put_be 8 12)

row_encodes : encode_table_row_key 7 (Value.string (b'k' ∷ []) ∷ []) 12 ≡ ok row_key
unfolding encode_table_row_key put_be
row_encodes = refl

decode-encode_table_row_key_example :
    decode_table_row_key row_key (Kind.string ∷ []) ≡ ok (7, Value.string (b'k' ∷ []) ∷ [], 12)
unfolding kind_of
decode-encode_table_row_key_example =
    decode-encode_table_row_key 7 12 (Value.string (b'k' ∷ [])) [] row_key (omega arith)
      (omega arith) (refl, tt) row_encodes

row_truncated : decode_table_row_key (1 ∷ 2 ∷ []) (Kind.string ∷ []) ≡ err Error.truncated
unfolding decode_table_row_key decode_columns
row_truncated = refl

prefix_end_carries : prefix_end (1 ∷ 0xff ∷ []) ≡ some (2 ∷ 0 ∷ [])
unfolding prefix_end
prefix_end_carries = refl

prefix_end-bounds_example :
    ((◌≡◌ {A = List ℕ} (1 ∷ 0xff ∷ []) (1 ∷ 0xff ∷ [])) ↔ (
      (compare_bytes (1 ∷ 0xff ∷ []) (1 ∷ 0xff ∷ 5 ∷ []) ≢ Ordering.gt)
      × IsBefore (1 ∷ 0xff ∷ 5 ∷ []) (prefix_end (1 ∷ 0xff ∷ []))))
prefix_end-bounds_example =
    prefix_end-bounds (1 ∷ 0xff ∷ []) (1 ∷ 0xff ∷ []) (5 ∷ []) (omega arith) (omega arith) refl
