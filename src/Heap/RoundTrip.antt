-- ===== src/Heap/RoundTrip.antt =====
-- A row's values from its bytes.
use plomvix.Base.{
  ℕ, suc, ◌+◌, ◌*◌, ◌/◌, ◌≤◌, ◌<◌, ◌≡◌, refl, sym, ap, ◌∙◌, Bool, false, List, [], ◌∷◌, ◌++◌, map,
  length, take, All, take-append, drop-append, length-append, arith, ltb, ==_iff, Option, none,
  some, ok, ◌>>=◌,
}
use plomvix.Key.{Kind}
use plomvix.Key.Composite.{Any, parse_storage_composite_key, decode_storage_composite}
use plomvix.Key.Composite.Storage.{
  IsStorable, kind_of_any, parse_storage-encode_storage, encode_storage_composite-total,
}
use plomvix.Heap.{
  Column, Schema, lift, flag_normal, any_to_primitive, primitives, nulls, bitmask, mask_bits,
  bitmask_len, composite, encode_enterprise_value, non_null_kinds, non_null_vals, restore,
  decode_enterprise_value,
}
use plomvix.Heap.Bitmask.{mask_bits-bitmask, length-bitmask}

-- Values for the columns: nil, or of the column's kind and storable.
abbrev pub IsRow : List Column → List (Option Any) → Type 0
IsRow [] [] = Unit
IsRow (c ∷ columns) (none ∷ values) = IsRow columns values
IsRow (c ∷ columns) (some v ∷ values) =
    ((kind_of_any v ≡ c.kind) × IsStorable v) × IsRow columns values
IsRow columns values = ⊥

abbrev present : List (Option Any) → List Any
present [] = []
present (none ∷ values) = present values
present (some v ∷ values) = v ∷ present values

primitive-kind : (v : Any) → IsStorable v → any_to_primitive (kind_of_any v) v ≡ ok v
unfolding any_to_primitive
primitive-kind (Any.uint64 v) h = refl
primitive-kind (Any.int64 v) h = refl
primitive-kind (Any.string v) h = refl
primitive-kind (Any.bytes v) h = refl
primitive-kind Any.unsupported h = absurd h

-- What the loops over the columns make of a row.
record Loops (columns : List Column) (values : List (Option Any)) : Type 0 where
  pub same_length : length values ≡ length columns
  pub nulls_length : length (nulls values) ≡ length columns
  pub encoded : primitives columns values ≡ ok (present values)
  pub kinds : non_null_kinds columns (nulls values) ≡ map kind_of_any (present values)
  pub restored : restore (nulls values) (present values) ≡ ok values
  pub storable : All IsStorable (present values)

row-Loops :
    (columns : List Column) (values : List (Option Any))
    → IsRow columns values
    → Loops columns values
unfolding primitives restore
row-Loops [] [] h = record {
  same_length = refl;
  nulls_length = refl;
  encoded = refl;
  kinds = refl;
  restored = refl;
  storable = tt;
}
row-Loops (c ∷ columns) [] h = absurd h
row-Loops [] (none ∷ values) h = absurd h
row-Loops [] (some v ∷ values) h = absurd h
row-Loops (c ∷ columns) (none ∷ values) h =
    let l = row-Loops columns values h in
    record {
      same_length = ap suc l.same_length;
      nulls_length = ap suc l.nulls_length;
      encoded = l.encoded;
      kinds = l.kinds;
      restored = ap (λ r. r >>= λ rest. ok (none ∷ rest)) l.restored;
      storable = l.storable;
    }
row-Loops (c ∷ columns) (some v ∷ values) h =
    let l = row-Loops columns values h.1 in
    record {
      same_length = ap suc l.same_length;
      nulls_length = ap suc l.nulls_length;
      encoded =
          ap (λ r. r >>= λ p. primitives columns values >>= λ rest. ok (p ∷ rest))
            (ap (λ k. any_to_primitive k v) (sym h.0.0) ∙ primitive-kind v h.0.1)
          ∙ ap (λ r. r >>= λ rest. ok (v ∷ rest)) l.encoded;
      kinds =
          ap (λ k. k ∷ non_null_kinds columns (nulls values)) (sym h.0.0)
          ∙ ap (λ ks. kind_of_any v ∷ ks) l.kinds;
      restored = ap (λ r. r >>= λ rest. ok (some v ∷ rest)) l.restored;
      storable = (h.0.1, l.storable);
    }

vals-nonempty :
    (bytes : List ℕ) (k : Kind) (kinds : List Kind)
    → 0 < length bytes
    → non_null_vals bytes (k ∷ kinds) ≡ (
        lift (parse_storage_composite_key bytes (k ∷ kinds)) >>= λ parsed.
        lift (decode_storage_composite parsed))
unfolding non_null_vals
vals-nonempty [] k kinds h = absurd (omega (arith, h))
vals-nonempty (b ∷ bytes) k kinds h = refl

-- The composite of the values and what is decoded of it.
composite-vals :
    (vals : List Any)
    → All IsStorable vals
    → (payload : List ℕ) × (composite vals ≡ ok payload)
      × (non_null_vals payload (map kind_of_any vals) ≡ ok vals)
unfolding composite
composite-vals [] h = ([], refl, (unfold non_null_vals in refl))
composite-vals (x ∷ xs) h =
    let (k, e, n) = encode_storage_composite-total x xs h in
    let (parsed, decoded) = parse_storage-encode_storage x xs k h e in
    (
      k.data_bytes,
      ap (λ r. lift r >>= λ key. ok (key.data_bytes)) e,
      vals-nonempty k.data_bytes (kind_of_any x) (map kind_of_any xs) n
          ∙ ap (λ r. lift r >>= λ key. lift (decode_storage_composite key)) parsed
          ∙ ap lift decoded,
    )

encode-steps :
    (schema : Schema) (values : List (Option Any)) (flags : ℕ) (ps : List Any) (payload : List ℕ)
    → length values ≡ length schema.columns
    → primitives schema.columns values ≡ ok ps
    → composite ps ≡ ok payload
    → encode_enterprise_value schema values flags
      ≡ ok (flags ∷ (bitmask (bitmask_len schema) (nulls values) ++ payload))
unfolding encode_enterprise_value
encode-steps schema values flags ps payload same p e =
    rw ((==_iff (length values) (length schema.columns)).1 same, p, e) refl

decode-steps :
    (schema : Schema) (mask payload : List ℕ) (bits : List Bool) (vals : List Any)
    (values : List (Option Any))
    → length mask ≡ bitmask_len schema
    → take (length schema.columns) (mask_bits mask) ≡ bits
    → non_null_vals payload (non_null_kinds schema.columns bits) ≡ ok vals
    → restore bits vals ≡ ok values
    → decode_enterprise_value schema (flag_normal ∷ (mask ++ payload)) ≡ ok (some values)
unfolding decode_enterprise_value
decode-steps schema mask payload bits vals values size b v r =
    let n : ℕ = bitmask_len schema in
    rw (long, take-append n mask payload size, drop-append n mask payload size, b, v, r) refl
  where
    long : ltb (length (mask ++ payload)) (bitmask_len schema) ≡ false
    long =
        not_less (length (mask ++ payload)) (bitmask_len schema)
          (omega (arith, length-append mask payload, size))
      where
        not_less : (a b : ℕ) → b ≤ a → ltb a b ≡ false
        not_less a b h = ground arith

-- A row of values that fit their columns, nil values among them, encodes to bytes that decode to it.
pub decode-encode_enterprise_value :
    (schema : Schema) (values : List (Option Any))
    → IsRow schema.columns values
    → (bytes : List ℕ) × (encode_enterprise_value schema values flag_normal ≡ ok bytes)
      × (decode_enterprise_value schema bytes ≡ ok (some values))
decode-encode_enterprise_value schema values h =
    let l = row-Loops schema.columns values h in
    let (payload, e, d) = composite-vals (present values) l.storable in
    let n : ℕ = bitmask_len schema in
    let mask : List ℕ = bitmask n (nulls values) in
    (
      flag_normal ∷ (mask ++ payload),
      encode-steps schema values flag_normal (present values) payload l.same_length l.encoded e,
      decode-steps schema mask payload (nulls values) (present values) values
          (length-bitmask n (nulls values))
          (ap (λ k. take k (mask_bits mask)) (sym l.nulls_length)
            ∙ mask_bits-bitmask n (nulls values)
                (omega (arith, enough (length schema.columns), l.nulls_length)))
          (ap (non_null_vals payload) l.kinds ∙ d) l.restored,
    )
  where
    enough : (m : ℕ) → m ≤ 8 * ((m + 7) / 8)
    enough m = omega arith
