-- ===== src/Key.antt =====
-- internal/engine/sql/key/key.go: key encodings of column values. This file has the types, the
-- scalar encodings and the checks that they share; the children have the composites, the row keys
-- and the proofs.
pub mod Composite
pub mod Row
pub mod Scalar
pub mod Order
mod Runs
use Prim.Native.Nat.{bit_xor, Ordering}
use plomvix.Base.{
  ℕ, ◌+◌, ◌-◌, ◌^◌, Bool, true, false, List, [], ◌∷◌, ◌++◌, Option, none, some, ltb, leb, ◌==◌, not,
  ◌&&◌, ◌||◌, if◌then◌else◌, length, take, drop, Result, ok, err, ◌>>=◌, ◌>>◌, require,
}
use plomvix.Base.Bytes.{put_be, get_be}
use plomvix.Base.Bytes.Order.{compare_bytes}

-- `other` is any value of the byte that is none of the four constants.
pub data Kind : Type 0 where
  uint64 int64 string bytes other : Kind

-- The sentinel errors.
pub data Error : Type 0 where
  null_byte_in_string unsupported_type unsupported_sort_type invalid_key kind_mismatch : Error
  not_composite truncated bad_tag no_pk_columns : Error

pub record Field : Type 0 where
  pub kind : Kind
  pub offset : ℕ
  pub length : ℕ

pub record Key : Type 0 where
  pub data_bytes : List ℕ
  pub fields : List Field

-- A tagged column value. An int64 is its bit pattern, which is how the struct holds it.
pub data Value : Type 0 where
  uint64 : ℕ → Value
  int64 : ℕ → Value
  string : List ℕ → Value
  bytes : List ℕ → Value

unfoldable pub kind_of : Value → Kind
kind_of (Value.uint64 u) = Kind.uint64
kind_of (Value.int64 u) = Kind.int64
kind_of (Value.string s) = Kind.string
kind_of (Value.bytes b) = Kind.bytes

abbrev pub zero_in : List ℕ → Bool
zero_in [] = false
zero_in (c ∷ s) = c == 0 || zero_in s

-- `u ^ (1 << 63)`
unfoldable pub flip_sign : ℕ → ℕ
flip_sign u = bit_xor u (2 ^ 63)

-- binary.BigEndian.Uint64(data[off:])
unfoldable pub uint64_at : List ℕ → ℕ → ℕ
uint64_at bs off = get_be (take 8 (drop off bs))

-- data[off : off+n]
abbrev pub slice : List ℕ → ℕ → ℕ → List ℕ
slice bs off n = take n (drop off bs)

unfoldable pub compare_key : Key → Key → Ordering
compare_key k l = compare_bytes k.data_bytes l.data_bytes

abbrev pub needs_eight : Kind → Bool
needs_eight Kind.uint64 = true
needs_eight Kind.int64 = true
needs_eight _ = false

-- Offsets and lengths are built as sizes, so the tests for negative ones never fail.
unfoldable pub validate_field : List ℕ → Field → Result Error (Unit {0})
validate_field bs f =
    if ltb (length bs) f.offset
    then err invalid_key
    else if ltb (length bs - f.offset) f.length
    then err invalid_key
    else if needs_eight f.kind && not (f.length == 8)
    then err invalid_key
    else ok tt

abbrev pub scalar : Kind → List ℕ → Key
scalar k bs = record {
  data_bytes = bs;
  fields = record { kind = k; offset = 0; length = length bs } ∷ [];
}

unfoldable pub encode_uint64 : ℕ → Key
encode_uint64 v = scalar Kind.uint64 (put_be 8 v)

unfoldable pub encode_int64 : ℕ → Key
encode_int64 v = scalar Kind.int64 (put_be 8 (flip_sign v))

unfoldable pub encode_string : List ℕ → Result Error Key
encode_string s =
    if zero_in s then err null_byte_in_string else ok (scalar Kind.string (s ++ 0 ∷ []))

unfoldable pub encode_bytes : List ℕ → Key
encode_bytes b = scalar Kind.bytes b

abbrev pub one_field : List Field → Result Error Field
one_field [] = err invalid_key
one_field (f ∷ []) = ok f
one_field (f ∷ g ∷ fs) = err invalid_key

abbrev pub require_scalar : Key → Result Error Field
require_scalar k = one_field k.fields

abbrev pub same_kind : Kind → Kind → Bool
same_kind Kind.uint64 Kind.uint64 = true
same_kind Kind.int64 Kind.int64 = true
same_kind Kind.string Kind.string = true
same_kind Kind.bytes Kind.bytes = true
same_kind _ _ = false

-- The checks that open each of the four scalar decoders.
abbrev pub scalar_field : Kind → Key → Result Error Field
scalar_field kind k = do
  f ← require_scalar k
  require (same_kind f.kind kind) kind_mismatch
  validate_field k.data_bytes f
  ok f

unfoldable pub decode_uint64 : Key → Result Error ℕ
decode_uint64 k = do f ← scalar_field Kind.uint64 k; ok (uint64_at k.data_bytes f.offset)

unfoldable pub decode_int64 : Key → Result Error ℕ
decode_int64 k = do f ← scalar_field Kind.int64 k; ok (flip_sign (uint64_at k.data_bytes f.offset))

-- The text before a last zero byte.
abbrev pub unterminated : List ℕ → Result Error (List ℕ)
unterminated [] = err invalid_key
unterminated (c ∷ []) = if c == 0 then ok [] else err invalid_key
unterminated (c ∷ d ∷ s) = do s' ← unterminated (d ∷ s); ok (c ∷ s')

unfoldable pub decode_string : Key → Result Error (List ℕ)
decode_string k = do
  f ← scalar_field Kind.string k
  unterminated (slice k.data_bytes f.offset f.length)

unfoldable pub decode_bytes : Key → Result Error (List ℕ)
decode_bytes k = do f ← scalar_field Kind.bytes k; ok (slice k.data_bytes f.offset f.length)
