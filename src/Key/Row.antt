-- ===== src/Key/Row.antt =====
-- internal/engine/sql/key/row.go: the keys of table rows,
-- [0x01][table id][primary key columns][version], and the bounds of a scan by prefix.
pub mod RoundTrip
pub mod Prefix
use plomvix.Base.{
  ℕ, ◌+◌, ◌-◌, ◌%◌, Bool, true, false, List, [], ◌∷◌, ◌++◌, Option, none, some, ltb, leb, ◌==◌, not,
  ◌&&◌, if◌then◌else◌, length, drop, get_elem?, Result, ok, err, ◌>>=◌, ◌>>◌, require,
}
use plomvix.Base.Bytes.{put_be, get_be}
use plomvix.Key.{
  Kind, Error, Value, flip_sign, uint64_at, slice, invalid_key, truncated, bad_tag, no_pk_columns,
}

abbrev pub table_row_tag : ℕ
table_row_tag = 1

-- One primary key column, in the type switch that both encoders share.
unfoldable pub encode_column : Value → List ℕ
encode_column (Value.uint64 u) = put_be 8 u
encode_column (Value.int64 u) = put_be 8 (flip_sign u)
encode_column (Value.string s) = s ++ 0 ∷ []
encode_column (Value.bytes b) = b

unfoldable pub encode_columns : List Value → List ℕ
unfolding encode_column
encode_columns [] = []
encode_columns (v ∷ pk) = encode_column v ++ encode_columns pk

-- TablePrefix
unfoldable pub table_prefix : ℕ → List ℕ
table_prefix table_id = table_row_tag ∷ put_be 8 table_id

unfoldable pub encode_table_row_key : ℕ → List Value → ℕ → Result Error (List ℕ)
unfolding table_prefix encode_columns
encode_table_row_key table_id [] version = err no_pk_columns
encode_table_row_key table_id (v ∷ pk) version =
    ok (table_prefix table_id ++ (encode_columns (v ∷ pk) ++ put_be 8 version))

unfoldable pub encode_table_row_prefix : ℕ → List Value → Result Error (List ℕ)
unfolding table_prefix encode_columns
encode_table_row_prefix table_id [] = err no_pk_columns
encode_table_row_prefix table_id (v ∷ pk) = ok (table_prefix table_id ++ encode_columns (v ∷ pk))

-- The number of bytes before the first zero byte.
abbrev pub index_zero : List ℕ → Option ℕ
index_zero [] = none
index_zero (c ∷ s) =
    if c == 0 then some 0 else (elim (index_zero s) [ none ↦ none | some n ↦ some (n + 1) ])

abbrev pub is_last : List Kind → Bool
is_last [] = true
is_last (k ∷ ks) = false

-- One column of the loop of DecodeTableRowKey at position `pos`: the value and the next position.
unfoldable pub decode_column : Kind → List Kind → List ℕ → ℕ → Result Error (Value × ℕ)
decode_column Kind.uint64 later b pos =
    if ltb (length b) (pos + 8) then err truncated else ok (Value.uint64 (uint64_at b pos), pos + 8)
decode_column Kind.int64 later b pos =
    if ltb (length b) (pos + 8)
    then err truncated
    else ok (Value.int64 (flip_sign (uint64_at b pos)), pos + 8)
decode_column Kind.string later b pos = elim (index_zero (drop pos b)) [
  | none ↦ err truncated
  | some n ↦ ok (Value.string (slice b pos n), pos + n + 1)
]
decode_column Kind.bytes later b pos =
    if not (is_last later)
    then err invalid_key
    else if ltb (length b) (pos + 8)
    then err truncated
    else ok (Value.bytes (slice b pos (length b - pos - 8)), pos + (length b - pos - 8))
decode_column Kind.other later b pos = err invalid_key

unfoldable pub decode_columns : List Kind → List ℕ → ℕ → Result Error (List Value × ℕ)
unfolding decode_column
decode_columns [] b pos = ok ([], pos)
decode_columns (k ∷ kinds) b pos = do
  require (ltb pos (length b)) truncated
  (v, next) ← decode_column k kinds b pos
  (vs, end) ← decode_columns kinds b next
  ok (v ∷ vs, end)

abbrev pub tag_is : List ℕ → Bool
tag_is [] = false
tag_is (c ∷ b) = c == table_row_tag

unfoldable pub decode_table_row_key : List ℕ → List Kind → Result Error (ℕ × List Value × ℕ)
decode_table_row_key b kinds = do
  require (leb 9 (length b)) truncated
  require (tag_is b) bad_tag
  (pk, pos) ← decode_columns kinds b 9
  require (pos + 8 == length b) truncated
  ok (uint64_at b 1, pk, uint64_at b pos)

-- The loop that adds one from the last byte on, while the byte wraps to zero: the bytes, and
-- whether the carry left the first one.
unfoldable pub increment : List ℕ → List ℕ × Bool
increment [] = ([], true)
increment (b ∷ bs) =
    let (bs', carry) = increment bs in
    if carry then (((b + 1) % 256) ∷ bs', (b + 1) % 256 == 0) else (b ∷ bs', false)

abbrev pub all_ff : List ℕ → Bool
all_ff [] = true
all_ff (b ∷ bs) = b == 0xff && all_ff bs

-- `none` is the nil slice, which callers take for no bound.
unfoldable pub prefix_end : List ℕ → Option (List ℕ)
unfolding increment
prefix_end p = if all_ff p then none else some (increment p).0
