-- ===== src/Key/Row/RoundTrip.antt =====
-- Row keys decode to the table, the primary key and the version that they were made from.
use plomvix.Base.{
  ℕ, suc, append-nil, ◌+◌, ◌-◌, ◌≡◌, refl, sym, ap, List, [], ◌∷◌, ◌++◌, arith, append_assoc, ok,
  length, length-append, drop-append, take-append, ltb, ◌==◌, false, true, some, map, leb,
}
use plomvix.Base.Bytes.{put_be, length-put_be}
use plomvix.Base.Int.{IsU64}
use plomvix.Key.{Kind, Value, kind_of, zero_in, flip_sign, uint64_at}
use plomvix.Key.Scalar.{flip_sign-IsU64, flip_sign-flip_sign}
use plomvix.Key.Composite.Sorted.{uint64_at-seam}
use plomvix.Key.Composite.Storage.{slice-seam}
use plomvix.Key.Row.{
  encode_column, encode_columns, table_prefix, encode_table_row_key, index_zero, tag_is,
  decode_column, decode_columns, decode_table_row_key,
}

-- The primary keys that can be read back: 64-bit numbers, texts without zero bytes, and bytes in
-- the last column only.
abbrev pub IsRowKey : List Value → Type 0
IsRowKey [] = Unit
IsRowKey (Value.uint64 u ∷ pk) = IsU64 u × IsRowKey pk
IsRowKey (Value.int64 u ∷ pk) = IsU64 u × IsRowKey pk
IsRowKey (Value.string s ∷ pk) = (zero_in s ≡ false) × IsRowKey pk
IsRowKey (Value.bytes b ∷ []) = Unit
IsRowKey (Value.bytes b ∷ v ∷ pk) = ⊥

index_zero-append :
    (s post : List ℕ) → zero_in s ≡ false → index_zero (s ++ 0 ∷ post) ≡ some (length s)
index_zero-append [] post h = refl
index_zero-append (c ∷ s) post h = ground (arith, index_zero-append s post)

-- A column of fixed or marked length is read whatever follows it.
decode_column-number :
    (w pre post : List ℕ) (pos : ℕ)
    → pos ≡ length pre
    → length w ≡ 8
    → ltb (length (pre ++ (w ++ post))) (pos + 8) ≡ false
decode_column-number w pre post pos e h =
    ground (arith, length-append pre (w ++ post), length-append w post)

decode_string-seam :
    (s pre post : List ℕ) (pos : ℕ) (later : List Kind)
    → pos ≡ length pre
    → zero_in s ≡ false
    → decode_column Kind.string later (pre ++ ((s ++ 0 ∷ []) ++ post)) pos
      ≡ ok (Value.string s, pos + length (s ++ 0 ∷ []))
unfolding decode_column
decode_string-seam s pre post pos later e h = ground (
  arith,
  append_assoc s (0 ∷ []) post,
  drop-append pos pre (s ++ 0 ∷ post) (sym e),
  index_zero-append s post h,
  take-append (length s) s (0 ∷ post) refl,
  length-append s (0 ∷ []),
)

-- The last column of bytes takes all but the eight bytes of the version.
rest_length :
    (b pre : List ℕ) (version pos : ℕ)
    → pos ≡ length pre
    → length (pre ++ (b ++ put_be 8 version)) - pos - 8 ≡ length b
rest_length b pre version pos e = omega (
  arith,
  length-append pre (b ++ put_be 8 version),
  length-append b (put_be 8 version),
  length-put_be 8 version,
)

decode_column-number_after :
    (b pre : List ℕ) (version pos : ℕ)
    → pos ≡ length pre
    → ltb (length (pre ++ (b ++ put_be 8 version))) (pos + 8) ≡ false
decode_column-number_after b pre version pos e = ground (
  arith,
  length-append pre (b ++ put_be 8 version),
  length-append b (put_be 8 version),
  length-put_be 8 version,
)

decode_column-seam :
    (v : Value) (later : List Kind) (pk : List Value) (pre : List ℕ) (version pos : ℕ)
    → pos ≡ length pre
    → later ≡ map kind_of pk
    → IsRowKey (v ∷ pk)
    → decode_column
        (kind_of v)
        later
        (pre ++ (encode_column v ++ (encode_columns pk ++ put_be 8 version)))
        pos
      ≡ ok (v, pos + length (encode_column v))
unfolding decode_column kind_of encode_column uint64_at encode_columns
decode_column-seam (Value.uint64 u) later pk pre version pos e l h =
    let post = encode_columns pk ++ put_be 8 version in
    rw (
      decode_column-number (put_be 8 u) pre post pos e (length-put_be 8 u),
      uint64_at-seam pre post pos u e h.0,
      length-put_be 8 u,
    )
decode_column-seam (Value.int64 u) later pk pre version pos e l h =
    let post = encode_columns pk ++ put_be 8 version in
    rw (
      decode_column-number (put_be 8 (flip_sign u)) pre post pos e (length-put_be 8 (flip_sign u)),
      uint64_at-seam pre post pos (flip_sign u) e (flip_sign-IsU64 u h.0),
      length-put_be 8 (flip_sign u),
      flip_sign-flip_sign u h.0,
    )
decode_column-seam (Value.string s) later pk pre version pos e l h =
    decode_string-seam s pre (encode_columns pk ++ put_be 8 version) pos later e h.0
decode_column-seam (Value.bytes b) later [] pre version pos e l h = rw (
  l,
  decode_column-number_after b pre version pos e,
  rest_length b pre version pos e,
  slice-seam pre b (put_be 8 version) pos (length b) e refl,
)
decode_column-seam (Value.bytes b) later (w ∷ pk) pre version pos e l h = absurd h

IsRowKey-tail : (v : Value) (pk : List Value) → IsRowKey (v ∷ pk) → IsRowKey pk
IsRowKey-tail (Value.uint64 u) pk h = h.1
IsRowKey-tail (Value.int64 u) pk h = h.1
IsRowKey-tail (Value.string s) pk h = h.1
IsRowKey-tail (Value.bytes b) [] h = tt
IsRowKey-tail (Value.bytes b) (w ∷ pk) h = absurd h

-- The eight bytes of the version are still ahead of every column.
in_bounds :
    (w pre post : List ℕ) (version pos : ℕ)
    → pos ≡ length pre
    → ltb pos (length (pre ++ (w ++ (post ++ put_be 8 version)))) ≡ true
in_bounds w pre post version pos e = ground (
  arith,
  length-append pre (w ++ (post ++ put_be 8 version)),
  length-append w (post ++ put_be 8 version),
  length-append post (put_be 8 version),
  length-put_be 8 version,
)

decode_columns-eq :
    (pk : List Value) (pre : List ℕ) (version pos : ℕ)
    → pos ≡ length pre
    → IsRowKey pk
    → decode_columns (map kind_of pk) (pre ++ (encode_columns pk ++ put_be 8 version)) pos
      ≡ ok (pk, pos + length (encode_columns pk))
unfolding decode_columns encode_columns
decode_columns-eq [] pre version pos e h = ap (λ (n : ℕ). ok ([], n)) (omega arith)
decode_columns-eq (v ∷ pk) pre version pos e h =
    let w = encode_column v in
    let post = encode_columns pk ++ put_be 8 version in
    let here = decode_column-seam v (map kind_of pk) pk pre version pos e refl h in
    let e' : pos + length w ≡ length (pre ++ w) = omega (arith, length-append pre w) in
    let rest = decode_columns-eq pk (pre ++ w) version (pos + length w) e' (IsRowKey-tail v pk h) in
    rw
      (
        append_assoc w (encode_columns pk) (put_be 8 version),
        in_bounds w pre (encode_columns pk) version pos e,
        here,
        rw (append_assoc pre w post) at rest,
      )
      (ap (λ (n : ℕ). ok (v ∷ pk, n)) (omega (arith, length-append w (encode_columns pk))))

table_prefix-length : (table_id : ℕ) → length (table_prefix table_id) ≡ 9
unfolding table_prefix
table_prefix-length table_id = ap suc (length-put_be 8 table_id)

-- A row key of at least one column decodes to the table id, the columns and the version that it was
-- made from, where the columns are 64-bit numbers, texts without zero bytes, and bytes only last.
pub decode-encode_table_row_key :
    (table_id version : ℕ) (v : Value) (pk : List Value) (b : List ℕ)
    → IsU64 table_id
    → IsU64 version
    → IsRowKey (v ∷ pk)
    → encode_table_row_key table_id (v ∷ pk) version ≡ ok b
    → decode_table_row_key b (map kind_of (v ∷ pk)) ≡ ok (table_id, v ∷ pk, version)
decode-encode_table_row_key table_id version v pk b ht hv h e = rw b_eq decoded
  where
    cols : List ℕ
    cols = encode_columns (v ∷ pk)

    whole : List ℕ
    whole = table_prefix table_id ++ (cols ++ put_be 8 version)

    b_eq : b ≡ whole
    b_eq = unfold encode_table_row_key in cc

    columns : decode_columns (map kind_of (v ∷ pk)) whole 9 ≡ ok (v ∷ pk, 9 + length cols)
    columns =
        decode_columns-eq (v ∷ pk) (table_prefix table_id) version 9
          (sym (table_prefix-length table_id)) h

    size : length whole ≡ 9 + length cols + 8
    size = omega (
      arith,
      table_prefix-length table_id,
      length-append (table_prefix table_id) (cols ++ put_be 8 version),
      length-append cols (put_be 8 version),
      length-put_be 8 version,
    )

    long_enough : leb 9 (length whole) ≡ true
    long_enough = ground (arith, size)

    tagged : tag_is whole ≡ true
    tagged = unfold table_prefix in refl

    at_end : (9 + length cols + 8 == length whole) ≡ true
    at_end = ground (arith, size)

    at_table : uint64_at whole 1 ≡ table_id
    at_table =
        unfold table_prefix in uint64_at-seam (1 ∷ []) (cols ++ put_be 8 version) 1 table_id refl ht

    at_version : uint64_at whole (9 + length cols) ≡ version
    at_version =
        rw (append_assoc, append-nil) at
          (uint64_at-seam (table_prefix table_id ++ cols) [] (9 + length cols) version
            (omega
              (arith, length-append (table_prefix table_id) cols, table_prefix-length table_id))
            hv)

    decoded : decode_table_row_key whole (map kind_of (v ∷ pk)) ≡ ok (table_id, v ∷ pk, version)
    decoded =
        unfold decode_table_row_key in
        rw (long_enough, tagged, columns, at_end, at_table, at_version)
