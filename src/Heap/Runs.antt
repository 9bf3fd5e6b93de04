-- ===== src/Heap/Runs.antt =====
-- The heap's theorems at concrete inputs.
use plomvix.Base.{ℕ, ◌≡◌, refl, List, [], ◌∷◌, arith, Option, none, some, ok, err}
use plomvix.Base.Bytes.{get_be}
use plomvix.Key.{Kind, uint64_at}
use plomvix.Key.Composite.{Any}
use plomvix.Key.Row.{decode_table_row_key, decode_columns, decode_column, encode_table_row_prefix}
use plomvix.Heap.{Schema, flag_normal, encode_enterprise_value, decode_enterprise_value}
use plomvix.Heap.RoundTrip.{decode-encode_enterprise_value}
use plomvix.Heap.Rows.{open_rows, drain, somes, drain-open_rows}
use plomvix.Heap.Table.{
  tx_conflict, KvStore, version_in, versions_of, encode_row_version_prefix, key_values,
  any_to_key_value, pk_values, pk_kinds, insert, update_row, delete_row,
}
use plomvix.Heap.Table.Conflict.{writes-conflict}
use plomvix.Heap.Vacuum.{VersionEntry}

-- A number, a text and bytes.
abbrev some_schema : Schema
some_schema = record {
  table_id = 7;
  columns =
      record { name = 97 ∷ []; kind = Kind.uint64 }
      ∷ record { name = 98 ∷ []; kind = Kind.string }
      ∷ record { name = 99 ∷ []; kind = Kind.bytes }
      ∷ [];
  pk_indices = 0 ∷ [];
}

abbrev some_row : List (Option Any)
some_row = some (Any.uint64 5) ∷ none ∷ some (Any.bytes (0 ∷ 9 ∷ [])) ∷ []

decode-encode_enterprise_value_example :
    (bytes : List ℕ) × (encode_enterprise_value some_schema some_row flag_normal ≡ ok bytes)
    × (decode_enterprise_value some_schema bytes ≡ ok (some some_row))
decode-encode_enterprise_value_example =
    decode-encode_enterprise_value some_schema some_row
      ((refl, omega arith), ((refl, omega arith), tt))

abbrev three_rows : List ℕ
three_rows = 10 ∷ 20 ∷ 30 ∷ []

drain-open_rows_example : drain 3 (open_rows three_rows) ≡ somes (20 ∷ 30 ∷ [])
drain-open_rows_example = drain-open_rows three_rows

abbrev version_of : ℕ → ℕ → VersionEntry
version_of version flags = record {
  version = version;
  data_bytes = flags ∷ 7 ∷ [];
  key_bytes = version ∷ [];
}

-- A deletion over two older versions.
abbrev some_versions : List VersionEntry
some_versions = version_of 9 1 ∷ version_of 6 0 ∷ version_of 2 0 ∷ []

-- A store of one key, which a scan always gives.
abbrev one_key : KvStore (List (List ℕ × List ℕ)) ℕ
one_key = record { scan = λ start end s. ok s; put = λ k v s. ((k, v) ∷ [], ok tt) }

abbrev same_order : List (ℕ × List ℕ) → List (ℕ × List ℕ)
same_order l = l

-- The key of row 5 of table 7 at version 4.
abbrev row_at_four : List ℕ
row_at_four =
    1 ∷ 0 ∷ 0 ∷ 0 ∷ 0 ∷ 0 ∷ 0 ∷ 0 ∷ 7 ∷ 0 ∷ 0 ∷ 0 ∷ 0 ∷ 0 ∷ 0 ∷ 0 ∷ 5 ∷ 0 ∷ 0 ∷ 0 ∷ 0 ∷ 0 ∷ 0 ∷ 0
    ∷ 4 ∷ []

abbrev stored : List (List ℕ × List ℕ)
stored = (row_at_four, []) ∷ []

abbrev five : List (Option Any)
five = some (Any.uint64 5) ∷ []

found : versions_of one_key same_order some_schema stored five ≡ ok (Kind.uint64 ∷ [], stored)
unfolding encode_row_version_prefix key_values any_to_key_value pk_kinds encode_table_row_prefix
found = refl

at_four : version_in (Kind.uint64 ∷ []) row_at_four ≡ some 4
unfolding decode_table_row_key decode_columns decode_column uint64_at get_be
at_four = refl

one_key_pk : pk_values {F = ℕ} some_row (0 ∷ []) ≡ ok five
unfolding pk_values
one_key_pk = refl

writes-conflict_example :
    (insert one_key same_order some_schema stored 4 some_row ≡ (stored, err tx_conflict))
    × (update_row one_key same_order some_schema stored 4 five some_row ≡ (stored, err tx_conflict))
    × (delete_row one_key same_order some_schema stored 4 five ≡ (stored, err tx_conflict))
writes-conflict_example =
    writes-conflict one_key same_order some_schema stored 4 five some_row (Kind.uint64 ∷ []) []
      row_at_four [] [] 4 refl one_key_pk (omega arith) found at_four (omega arith)
