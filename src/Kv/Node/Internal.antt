-- ===== src/Kv/Node/Internal.antt =====
-- An internal node's body decodes to its children and keys.
use plomvix.Base.{
  ℕ, ◌-◌, ◌*◌, ◌%◌, ◌≤◌, ◌≡◌, refl, sym, ap, ◌∙◌, true, List, [], ◌∷◌, ◌++◌, map, arith,
  append_assoc, append-nil, length, take, drop, length-append, take-append, drop-append, All, ok,
}
use plomvix.Base.Bytes.{put_be, get_be, length-put_be, get_be-put_be}
use plomvix.Base.Int.{IsU64}
use plomvix.Pager.{body_size}
use plomvix.Pager.Page.{zeros}
use plomvix.Kv.{
  Bytes, max_key_size, max_internal_keys, internal_slot_size, node_type_internal, ascending,
}
use plomvix.Kv.Node.{
  fill, first_byte, node_header, internal_slot, encode_internal_slots, encode_internal_node,
  decode_internal_slot, decode_internal_slots, decode_internal_node,
}
use plomvix.Kv.Node.Fill.{length-fill, fill_fits, take-fill, window}
use plomvix.Kv.Node.Slot.{small_enough}
use plomvix.Kv.Node.Leaf.{header_numbers}

-- A key and a child that fit a slot.
abbrev pub IsRoute : Bytes × ℕ → Type 0
IsRoute e = (length e.0 ≤ max_key_size) × IsU64 (e.1)

decode-internal_slot :
    (k : Bytes) (child : ℕ)
    → IsRoute (k, child)
    → (decode_internal_slot (internal_slot k child) ≡ ok (k, child))
      × (length (internal_slot k child) ≡ internal_slot_size)
unfolding decode_internal_slot internal_slot
decode-internal_slot k child h = (
  rw
      (
        small_byte,
        small_enough (length k) max_key_size (h.0),
        take-fill 63 k (put_be 8 child) (h.0),
        number,
      )
      refl,
  omega
      (arith, length-append (fill 63 k) (put_be 8 child), length-fill 63 k, length-put_be 8 child),
)
  where
    small_byte : length k % 256 ≡ length k
    small_byte = omega (arith, h.0)

    number : get_be (take 8 (drop 63 (fill 63 k ++ put_be 8 child))) ≡ child
    number =
        ap (λ l. get_be (take 8 (drop 63 (fill 63 k ++ l)))) (sym (append-nil (put_be 8 child)))
        ∙ ap get_be
            (window 63 8 (fill 63 k) (put_be 8 child) [] (length-fill 63 k) (length-put_be 8 child))
        ∙ get_be-put_be 8 child (h.1)

internal_slots-decode :
    (entries : List (Bytes × ℕ))
    → All IsRoute entries
    → (slots : Bytes) × (encode_internal_slots entries ≡ ok slots)
      × (length slots ≡ 72 * length entries)
      × ((rest : Bytes) → decode_internal_slots (length entries) (slots ++ rest) ≡ ok entries)
unfolding encode_internal_slots decode_internal_slots
internal_slots-decode [] h = ([], refl, omega arith, λ rest. refl)
internal_slots-decode ((k, child) ∷ entries) h =
    let (slots, e, n, d) = internal_slots-decode entries h.1 in
    let (one, size) = decode-internal_slot k child h.0 in
    (
      internal_slot k child ++ slots,
      rw (small_enough (length k) max_key_size (h.0.0), e) refl,
      omega (arith, length-append (internal_slot k child) slots, size, n),
      λ rest.
          rw
            (
              append_assoc (internal_slot k child) slots rest,
              take-append 72 (internal_slot k child) (slots ++ rest) size,
              drop-append 72 (internal_slot k child) (slots ++ rest) size,
              one,
              d rest,
            )
            refl,
    )

-- What encodeInternalNode accepts.
pub record IsInternal (first : ℕ) (entries : List (Bytes × ℕ)) : Type 0 where
  pub few : length entries ≤ max_internal_keys
  pub sorted : ascending (map (λ e. e.0) entries) ≡ true
  pub routes : All IsRoute entries
  pub first_fits : IsU64 first

-- An internal node of few, ascending keys has a body of a page's size that decodes to it.
pub decode-encode_internal_node :
    (first : ℕ) (entries : List (Bytes × ℕ))
    → IsInternal first entries
    → (body : Bytes) × (encode_internal_node first entries ≡ ok body)
      × (length body ≡ body_size)
      × (first_byte body ≡ node_type_internal)
      × (decode_internal_node body ≡ ok (first, entries))
decode-encode_internal_node first entries node =
    let (slots, e, size, d) = internal_slots-decode entries (node.routes) in
    let content : Bytes = node_header node_type_internal (length entries) first ++ slots in
    let z : Bytes = zeros (body_size - length content) in
    let (t, n, p, rest, whole) =
      header_numbers node_type_internal (length entries) first slots z (omega (arith, node.few))
        (node.first_fits) in
    let laid : fill body_size content ≡ content ++ z =
      fill_fits body_size content (omega (arith, whole, size, node.few)) in
    (
      fill body_size content,
      (unfold encode_internal_node in
          rw (small_enough (length entries) max_internal_keys (node.few), node.sorted, e) refl),
      length-fill body_size content,
      ap first_byte laid ∙ t,
      (unfold decode_internal_node in
          rw
            (
              length-fill body_size content,
              laid,
              t,
              n,
              p,
              rest,
              small_enough (length entries) max_internal_keys (node.few),
              d z,
            )
            refl),
    )
