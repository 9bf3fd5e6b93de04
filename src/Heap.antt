-- ===== src/Heap.antt =====
-- internal/engine/sql/heap: encode.go, the bytes of a row's values. A value is `none` where it is nil.
pub mod Bitmask
pub mod RoundTrip
pub mod Rows
pub mod Vacuum
pub mod Table
pub mod Runs
use plomvix.Base.{
  ℕ, zero, suc, ◌+◌, ◌*◌, ◌/◌, ◌%◌, Bool, true, false, not, ◌&&◌, List, [], ◌∷◌, ◌++◌, map, length,
  take, drop, ◌==◌, ltb, if◌then◌else◌, Option, none, some, Result, ok, err, require, ◌>>=◌, ◌>>◌,
}
use plomvix.Key
use plomvix.Key.{Kind, Key}
use plomvix.Key.Composite.{
  Any, encode_storage_composite, parse_storage_composite_key, decode_storage_composite,
}

-- The sentinel errors that the row codec gives, its errors without a sentinel, and an error of the keys.
pub data Error : Type 0 where
  column_count_mismatch type_mismatch value_too_short unknown_flags truncated decode_mismatch :
      Error
  of_key : Key.Error → Error

pub record Column : Type 0 where
  pub name : List ℕ
  pub kind : Kind

pub record Schema : Type 0 where
  pub table_id : ℕ
  pub columns : List Column
  pub pk_indices : List ℕ

abbrev pub flag_normal : ℕ
flag_normal = 0

abbrev pub flag_tombstone : ℕ
flag_tombstone = 1

abbrev pub lift : {A : Type 0} → Result Key.Error A → Result Error A
lift (ok a) = ok a
lift (err e) = err (of_key e)

-- anyToPrimitive, on a value that is not nil
unfoldable pub any_to_primitive : Kind → Any → Result Error Any
any_to_primitive Kind.uint64 (Any.uint64 v) = ok (Any.uint64 v)
any_to_primitive Kind.int64 (Any.int64 v) = ok (Any.int64 v)
any_to_primitive Kind.string (Any.string s) = ok (Any.string s)
any_to_primitive Kind.bytes (Any.bytes b) = ok (Any.bytes b)
any_to_primitive k v = err type_mismatch

-- The loop over the values: those that are not nil, by the kinds of their columns.
unfoldable pub primitives : List Column → List (Option Any) → Result Error (List Any)
primitives (c ∷ columns) (some v ∷ values) = do
  p ← any_to_primitive c.kind v
  rest ← primitives columns values
  ok (p ∷ rest)
primitives (c ∷ columns) (none ∷ values) = primitives columns values
primitives columns values = ok []

abbrev pub nulls : List (Option Any) → List Bool
nulls [] = []
nulls (none ∷ values) = true ∷ nulls values
nulls (some v ∷ values) = false ∷ nulls values

-- A byte of the bitmask: `1 << (i % 8)` for each bit i that is set.
unfoldable pub byte_of : List Bool → ℕ
byte_of [] = 0
byte_of (b ∷ bits) = (if b then 1 else 0) + 2 * byte_of bits

-- The bitmask, `n` bytes.
unfoldable pub bitmask : ℕ → List Bool → List ℕ
bitmask zero bits = []
bitmask (suc n) bits = byte_of (take 8 bits) ∷ bitmask n (drop 8 bits)

-- The bits of a byte from the lowest, and of the bitmask: bit i is `bitmask[i/8] & (1<<(i%8)) != 0`.
unfoldable pub bits_of : ℕ → ℕ → List Bool
bits_of zero b = []
bits_of (suc k) b = (b % 2 == 1) ∷ bits_of k (b / 2)

unfoldable pub mask_bits : List ℕ → List Bool
mask_bits [] = []
mask_bits (b ∷ mask) = bits_of 8 b ++ mask_bits mask

abbrev pub bitmask_len : Schema → ℕ
bitmask_len schema = (length schema.columns + 7) / 8

-- The composite of the values that are not nil: no bytes where there are none.
unfoldable pub composite : List Any → Result Error (List ℕ)
composite [] = ok []
composite (p ∷ ps) = do k ← lift (encode_storage_composite (p ∷ ps)); ok (k.data_bytes)

-- encodeEnterpriseValue, of a row that has values
unfoldable pub encode_enterprise_value : Schema → List (Option Any) → ℕ → Result Error (List ℕ)
encode_enterprise_value schema values flags = do
  require (length values == length schema.columns) column_count_mismatch
  ps ← primitives schema.columns values
  payload ← composite ps
  ok (flags ∷ (bitmask (bitmask_len schema) (nulls values) ++ payload))

-- encodeEnterpriseValue with nil values, which a tombstone has: a nil value for each column.
unfoldable pub encode_tombstone : Schema → Result Error (List ℕ)
encode_tombstone schema =
    encode_enterprise_value schema (map (λ c. none) schema.columns) flag_tombstone

-- nonNullKinds
abbrev pub non_null_kinds : List Column → List Bool → List Kind
non_null_kinds (c ∷ columns) (true ∷ bits) = non_null_kinds columns bits
non_null_kinds (c ∷ columns) (false ∷ bits) = c.kind ∷ non_null_kinds columns bits
non_null_kinds columns bits = []

-- nonNullVals
unfoldable pub non_null_vals : List ℕ → List Kind → Result Error (List Any)
non_null_vals [] kinds = ok []
non_null_vals (b ∷ payload) [] = ok []
non_null_vals (b ∷ payload) (k ∷ kinds) = do
  parsed ← lift (parse_storage_composite_key (b ∷ payload) (k ∷ kinds))
  lift (decode_storage_composite parsed)

-- The last loop: a nil value for each null bit, the values that were decoded for the others.
unfoldable pub restore : List Bool → List Any → Result Error (List (Option Any))
restore [] vals = ok []
restore (true ∷ bits) vals = do rest ← restore bits vals; ok (none ∷ rest)
restore (false ∷ bits) [] = err decode_mismatch
restore (false ∷ bits) (v ∷ vals) = do rest ← restore bits vals; ok (some v ∷ rest)

-- decodeEnterpriseValue: the values, or none for a tombstone.
unfoldable pub decode_enterprise_value : Schema → List ℕ → Result Error (Option (List (Option Any)))
decode_enterprise_value schema [] = err value_too_short
decode_enterprise_value schema (flags ∷ bytes) =
    let bits = take (length schema.columns) (mask_bits (take (bitmask_len schema) bytes)) in
    let row : Result Error (Option (List (Option Any))) =
      non_null_vals (drop (bitmask_len schema) bytes) (non_null_kinds schema.columns bits)
      >>= λ vals. restore bits vals >>= λ values. ok (some values) in
    (do
      require (ltb flags 2) unknown_flags
      require (not (ltb (length bytes) (bitmask_len schema))) truncated
      if flags == flag_tombstone then ok none else row)
