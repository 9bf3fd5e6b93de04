-- ===== src/Heap/Table.antt =====
-- table.go and encode.go: the operations of a table on the rows that its store keeps.
pub mod Conflict
use plomvix.Base.{
  ℕ, Bool, true, false, not, ◌&&◌, List, [], ◌∷◌, length, get_elem?, ◌==◌, ltb, leb, if◌then◌else◌,
  Option, none, some, Result, ok, err, require, ◌>>=◌, ◌>>◌,
}
use plomvix.Key
use plomvix.Key.{Kind, Value}
use plomvix.Key.Composite.{Any}
use plomvix.Key.Row.{
  encode_table_row_key, encode_table_row_prefix, decode_table_row_key, prefix_end,
}
use plomvix.Heap
use plomvix.Heap.{
  Column, Schema, flag_normal, encode_enterprise_value, encode_tombstone, decode_enterprise_value,
}

-- The errors of the operations: those of a table, of the row codec, of the keys and of the store, and the
-- panic of an index out of range.
pub data TableError (F : Type 0) : Type 0 where
  null_not_supported type_mismatch column_count_mismatch : TableError F
  invalid_tx tx_conflict duplicate_key key_not_found primary_key_update panicked : TableError F
  of_row : Heap.Error → TableError F
  of_row_key : Key.Error → TableError F
  of_store : F → TableError F

-- The operations of a KVStore that a table calls; a scan leaves the store as it is.
pub record KvStore (S F : Type 0) : Type 0 where
  pub scan : List ℕ → List ℕ → S → Result F (List (List ℕ × List ℕ))
  pub put : List ℕ → List ℕ → S → S × Result F (Unit {0})

abbrev pub passed : {F A E : Type 0} → (E → TableError F) → Result E A → Result (TableError F) A
passed f (ok a) = ok a
passed f (err e) = err (f e)

-- An index into a slice, which panics out of range.
abbrev pub at_index : {F A : Type 0} → List A → ℕ → Result (TableError F) A
at_index xs i = elim (get_elem? xs i) [ none ↦ err panicked | some a ↦ ok a ]

-- anyToKeyValue
unfoldable pub any_to_key_value : {F : Type 0} → Kind → Option Any → Result (TableError F) Value
any_to_key_value k none = err null_not_supported
any_to_key_value Kind.uint64 (some (Any.uint64 v)) = ok (Value.uint64 v)
any_to_key_value Kind.int64 (some (Any.int64 v)) = ok (Value.int64 v)
any_to_key_value Kind.string (some (Any.string s)) = ok (Value.string s)
any_to_key_value Kind.bytes (some (Any.bytes b)) = ok (Value.bytes b)
any_to_key_value k (some v) = err type_mismatch

-- kvs, of as many values as there are indices
unfoldable pub key_values :
    {F : Type 0} → List Column → List ℕ → List (Option Any) → Result (TableError F) (List Value)
key_values columns (i ∷ indices) (v ∷ values) = do
  c ← at_index columns i
  kv ← any_to_key_value c.kind v
  rest ← key_values columns indices values
  ok (kv ∷ rest)
key_values columns indices values = ok []

-- pkVals
unfoldable pub pk_values :
    {F : Type 0} → List (Option Any) → List ℕ → Result (TableError F) (List (Option Any))
pk_values values [] = ok []
pk_values values (i ∷ indices) = do
  v ← at_index values i
  rest ← pk_values values indices
  ok (v ∷ rest)

-- pkKinds
unfoldable pub pk_kinds : {F : Type 0} → List Column → List ℕ → Result (TableError F) (List Kind)
pk_kinds columns [] = ok []
pk_kinds columns (i ∷ indices) = do
  c ← at_index columns i
  rest ← pk_kinds columns indices
  ok (c.kind ∷ rest)

-- `endKey`, where no bound is the empty key.
abbrev pub end_key : Option (List ℕ) → List ℕ
end_key none = []
end_key (some end) = end

-- encodeRowKeyFromPK
unfoldable pub encode_row_key :
    {F : Type 0} → Schema → List (Option Any) → ℕ → Result (TableError F) (List ℕ)
encode_row_key schema pk version = do
  require (length pk == length schema.pk_indices) column_count_mismatch
  kvs ← key_values schema.columns schema.pk_indices pk
  passed of_row_key (encode_table_row_key schema.table_id kvs version)

-- encodeRowVersionPrefix
unfoldable pub encode_row_version_prefix :
    {F : Type 0} → Schema → List (Option Any) → Result (TableError F) (List ℕ × List ℕ)
encode_row_version_prefix schema pk = do
  require (length pk == length schema.pk_indices) column_count_mismatch
  kvs ← key_values schema.columns schema.pk_indices pk
  prefix ← passed of_row_key (encode_table_row_prefix schema.table_id kvs)
  ok (prefix, end_key (prefix_end prefix))

-- The version in a key, where it decodes.
abbrev pub version_in : List Kind → List ℕ → Option ℕ
version_in kinds k = elim (decode_table_row_key k kinds) [ ok d ↦ some (d.2) | err e ↦ none ]

-- One round of the loop of validateMonotonicTx, by the entry's version and what the later rounds give.
abbrev pub conflict_round :
    {F : Type 0}
    → ℕ
    → Result (TableError F) (Unit {0})
    → Option ℕ
    → Result (TableError F) (Unit {0})
conflict_round tx_id rest none = rest
conflict_round tx_id rest (some version) = if leb tx_id version then err tx_conflict else rest

-- The loop of validateMonotonicTx.
unfoldable pub no_conflict :
    {F : Type 0} → List Kind → ℕ → List (List ℕ × List ℕ) → Result (TableError F) (Unit {0})
no_conflict kinds tx_id [] = ok tt
no_conflict kinds tx_id ((k, data_bytes) ∷ entries) =
    conflict_round tx_id (no_conflict kinds tx_id entries) (version_in kinds k)

-- rowVersions
unfoldable pub row_versions : List Kind → ℕ → List (List ℕ × List ℕ) → List (ℕ × List ℕ)
row_versions kinds tx_id [] = []
row_versions kinds tx_id ((k, data_bytes) ∷ entries) =
    let rest = row_versions kinds tx_id entries in
    elim (version_in kinds k) [
      | none ↦ rest
      | some version ↦ if leb version tx_id then (version, data_bytes) ∷ rest else rest
    ]

-- findVisibleRow from `latest` on.
abbrev pub read_latest :
    {F : Type 0} → Schema → List (ℕ × List ℕ) → Result (TableError F) (List (Option Any) × ℕ)
read_latest schema [] = err key_not_found
read_latest schema ((version, data_bytes) ∷ older) =
    passed of_row (decode_enterprise_value schema data_bytes) >>= λ row. elim row [
      | none ↦ err key_not_found
      | some values ↦ ok (values, version)
    ]

-- `if err != nil { return ErrKeyNotFound }`. A panic does not come here: the same index expressions were
-- passed in validateMonotonicTx.
abbrev pub must_exist : {F A : Type 0} → Result (TableError F) A → Result (TableError F) (Unit {0})
must_exist (ok a) = ok tt
must_exist (err e) = err key_not_found

-- `if err == nil { return ErrDuplicateKey }`
abbrev pub must_not_exist :
    {F A : Type 0} → Result (TableError F) A → Result (TableError F) (Unit {0})
must_not_exist (ok a) = err duplicate_key
must_not_exist (err e) = ok tt

-- The comparison of two texts or byte slices in valueEqual.
abbrev pub same_bytes : List ℕ → List ℕ → Bool
same_bytes [] [] = true
same_bytes (a ∷ xs) (b ∷ ys) = a == b && same_bytes xs ys
same_bytes xs ys = false

-- valueEqual
unfoldable pub value_equal : Option Any → Option Any → Bool
value_equal (some (Any.uint64 a)) (some (Any.uint64 b)) = a == b
value_equal (some (Any.int64 a)) (some (Any.int64 b)) = a == b
value_equal (some (Any.string a)) (some (Any.string b)) = same_bytes a b
value_equal (some (Any.bytes a)) (some (Any.bytes b)) = same_bytes a b
value_equal a b = false

-- comparePK
unfoldable pub compare_pk : List ℕ → List (Option Any) → List (Option Any) → Bool
compare_pk (i ∷ indices) (v ∷ pk) values = elim (get_elem? values i) [
  | none ↦ false
  | some new_value ↦ value_equal v new_value && compare_pk indices pk values
]
compare_pk indices pk values = true

-- A key and a value to set, or an error.
abbrev pub Write : Type 0 → Type 0
Write F = Result (TableError F) (List ℕ × List ℕ)

module _ {S F : Type 0} (store : KvStore S F)
    (sort_descending : List (ℕ × List ℕ) → List (ℕ × List ℕ)) (schema : Schema) (s : S) where
  -- The versions of a row: the kinds of its primary key and the entries of the scan.
  abbrev pub versions_of :
      List (Option Any) → Result (TableError F) (List Kind × List (List ℕ × List ℕ))
  versions_of pk = do
    bounds ← encode_row_version_prefix schema pk
    entries ← passed of_store (store.scan (bounds.0) (bounds.1) s)
    kinds ← pk_kinds schema.columns schema.pk_indices
    ok (kinds, entries)

  -- validateMonotonicTx
  unfoldable pub validate_monotonic_tx : List (Option Any) → ℕ → Result (TableError F) (Unit {0})
  validate_monotonic_tx pk tx_id =
      if tx_id == 0
      then err invalid_tx
      else (versions_of pk >>= λ found. no_conflict (found.0) tx_id (found.1))

  -- findVisibleRow
  unfoldable pub find_visible_row :
      List (Option Any) → ℕ → Result (TableError F) (List (Option Any) × ℕ)
  find_visible_row pk tx_id = versions_of pk >>= λ found.
      read_latest schema (sort_descending (row_versions (found.0) tx_id (found.1)))

  -- The key and the value of a new version.
  abbrev pub written : List (Option Any) → ℕ → Result Heap.Error (List ℕ) → Write F
  written pk tx_id encoded = do
    row_value ← passed of_row encoded
    row_key ← encode_row_key schema pk tx_id
    ok (row_key, row_value)

  -- `return t.store.Set(ctx, rowKey, rowValue)`
  abbrev pub set_row : Write F → S × Result (TableError F) (Unit {0})
  set_row (err e) = (s, err e)
  set_row (ok w) = let (after, r) = store.put (w.0) (w.1) s in (after, passed of_store r)

  -- Insert
  unfoldable pub insert : ℕ → List (Option Any) → S × Result (TableError F) (Unit {0})
  insert tx_id values = set_row (do
    require (length values == length schema.columns) column_count_mismatch
    pk ← pk_values values schema.pk_indices
    validate_monotonic_tx pk tx_id
    must_not_exist (find_visible_row pk tx_id)
    written pk tx_id (encode_enterprise_value schema values flag_normal))

  -- Update
  unfoldable pub update_row :
      ℕ → List (Option Any) → List (Option Any) → S × Result (TableError F) (Unit {0})
  update_row tx_id pk values = set_row (do
    require (length values == length schema.columns) column_count_mismatch
    validate_monotonic_tx pk tx_id
    must_exist (find_visible_row pk tx_id)
    require (compare_pk schema.pk_indices pk values) primary_key_update
    written pk tx_id (encode_enterprise_value schema values flag_normal))

  -- Delete
  unfoldable pub delete_row : ℕ → List (Option Any) → S × Result (TableError F) (Unit {0})
  delete_row tx_id pk = set_row (do
    validate_monotonic_tx pk tx_id
    must_exist (find_visible_row pk tx_id)
    written pk tx_id (encode_tombstone schema))

  -- Get
  unfoldable pub get_row : ℕ → List (Option Any) → Result (TableError F) (List (Option Any))
  get_row tx_id pk = find_visible_row pk tx_id >>= λ row. ok (row.0)
