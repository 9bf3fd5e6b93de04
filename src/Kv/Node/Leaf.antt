-- ===== src/Kv/Node/Leaf.antt =====
-- A leaf's body decodes to the entries that it was made from.
use plomvix.Base.{
  ℕ, ◌+◌, ◌-◌, ◌*◌, ◌^◌, ◌%◌, ◌≤◌, ◌<◌, ◌≡◌, refl, ap, ◌∙◌, true, List, [], ◌∷◌, ◌++◌, map, arith,
  append_assoc, length, drop, length-append, take-append, drop-append, All, ok,
}
use native.Mathlib.Nat.{mod-eq_of_lt}
use plomvix.Base.Bytes.{put_be, get_be-put_be}
use plomvix.Base.Int.{IsU64}
use plomvix.Pager.{body_size}
use plomvix.Pager.Page.{zeros}
use plomvix.Pager.Header.{number_at}
use plomvix.Kv.{
  Bytes, max_key_size, max_leaf_keys, max_val_size_enterprise, node_type_leaf, ascending,
}
use plomvix.Kv.Node.{
  fill, first_byte, node_header, leaf_slot, encode_leaf_slots, encode_leaf_node, decode_leaf_slots,
  decode_leaf_node_refs,
}
use plomvix.Kv.Node.Fill.{length-fill, fill_fits}
use plomvix.Kv.Node.Slot.{IsStored, ref_entry, decode-slot, small_enough}

value_in_bounds : (e : Bytes × Bytes) → IsStored e → length e.1 ≤ max_val_size_enterprise
value_in_bounds e s = ground (arith, s.value_fits)

-- The slots of entries decode to them, whatever follows.
slots-decode :
    (entries : List (Bytes × Bytes))
    → All IsStored entries
    → (slots : Bytes) × (encode_leaf_slots entries ≡ ok slots)
      × (length slots ≡ 580 * length entries)
      × ((rest : Bytes)
          → decode_leaf_slots (length entries) (slots ++ rest) ≡ ok (map ref_entry entries))
unfolding encode_leaf_slots decode_leaf_slots
slots-decode [] h = ([], refl, omega arith, λ rest. refl)
slots-decode ((k, v) ∷ entries) h =
    let (slots, e, n, d) = slots-decode entries h.1 in
    let (one, size) = decode-slot (k, v) h.0 in
    (
      leaf_slot k v ++ slots,
      rw
          (
            small_enough (length k) max_key_size (h.0.key_fits),
            small_enough (length v) max_val_size_enterprise (value_in_bounds (k, v) h.0),
            e,
          )
          refl,
      omega (arith, length-append (leaf_slot k v) slots, size, n),
      λ rest.
          rw
            (
              append_assoc (leaf_slot k v) slots rest,
              take-append 580 (leaf_slot k v) (slots ++ rest) size,
              drop-append 580 (leaf_slot k v) (slots ++ rest) size,
              one,
              d rest,
            )
            refl,
    )

-- What encodeLeafNode accepts.
pub record IsLeaf (entries : List (Bytes × Bytes)) (next_leaf : ℕ) : Type 0 where
  pub few : length entries ≤ max_leaf_keys
  pub sorted : ascending (map (λ e. e.0) entries) ≡ true
  pub stored : All IsStored entries
  pub next_fits : IsU64 next_leaf

-- The numbers of a node's header stand where the decoders read them.
pub header_numbers :
    (t n p : ℕ) (slots rest : Bytes)
    → n < 2 ^ 16
    → IsU64 p
    → (first_byte ((node_header t n p ++ slots) ++ rest) ≡ t)
      × (number_at ((node_header t n p ++ slots) ++ rest) 1 2 ≡ n)
      × (number_at ((node_header t n p ++ slots) ++ rest) 3 8 ≡ p)
      × (drop 11 ((node_header t n p ++ slots) ++ rest) ≡ slots ++ rest)
      × (length (node_header t n p ++ slots) ≡ 11 + length slots)
unfolding put_be
header_numbers t n p slots rest hn hp = (
  refl,
  get_be-put_be 2 (n % 2 ^ 16) (omega arith) ∙ mod-eq_of_lt hn,
  get_be-put_be 8 p hp,
  refl,
  omega arith,
)

-- A leaf of few, ascending, storable entries has a body of a page's size that decodes to it: the
-- keys, and what the slots keep of the values.
pub decode-encode_leaf_node :
    (entries : List (Bytes × Bytes)) (next_leaf : ℕ)
    → IsLeaf entries next_leaf
    → (body : Bytes) × (encode_leaf_node entries next_leaf ≡ ok body)
      × (length body ≡ body_size)
      × (first_byte body ≡ node_type_leaf)
      × (decode_leaf_node_refs body ≡ ok (map ref_entry entries, next_leaf))
decode-encode_leaf_node entries next_leaf leaf =
    let (slots, e, size, d) = slots-decode entries (leaf.stored) in
    let content : Bytes = node_header node_type_leaf (length entries) next_leaf ++ slots in
    let z : Bytes = zeros (body_size - length content) in
    let (t, n, p, rest, whole) =
      header_numbers node_type_leaf (length entries) next_leaf slots z (omega (arith, leaf.few))
        (leaf.next_fits) in
    let laid : fill body_size content ≡ content ++ z =
      fill_fits body_size content (omega (arith, whole, size, leaf.few)) in
    (
      fill body_size content,
      (unfold encode_leaf_node in
          rw (small_enough (length entries) max_leaf_keys (leaf.few), leaf.sorted, e) refl),
      length-fill body_size content,
      ap first_byte laid ∙ t,
      (unfold decode_leaf_node_refs in
          rw
            (
              length-fill body_size content,
              laid,
              t,
              n,
              p,
              rest,
              small_enough (length entries) max_leaf_keys (leaf.few),
              d z,
            )
            refl),
    )
