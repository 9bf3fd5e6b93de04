-- ===== src/Kv/Node/Large.antt =====
-- What decodeLeafNode makes of a large value, and what a leaf keeps of it when it is encoded again.
use plomvix.Base.{
  ℕ, ◌+◌, ◌<◌, ◌≡◌, refl, ap, ◌∙◌, true, false, List, [], ◌∷◌, map, length, take, drop,
  length-append, length-take, length-drop, arith, ltb, if_true, if_false, ok,
}
use plomvix.Base.Bytes.{put_be, get_be, length-put_be}
use plomvix.Kv.{Bytes, max_val_size}
use plomvix.Kv.Node.{LeafValueRef, encode_leaf_node, decode_leaf_node, ref_value}
use plomvix.Kv.Node.Slot.{ref_of, ref_entry}
use plomvix.Kv.Node.Leaf.{IsLeaf, decode-encode_leaf_node}

-- A value as decodeLeafNode gives it back.
abbrev pub reread : Bytes → Bytes
reread v = ref_value (ref_of v)

reread_entries :
    (entries : List (Bytes × Bytes))
    → map {B = Bytes × Bytes} (λ e. (e.0, ref_value (e.1))) (map ref_entry entries)
      ≡ map {B = Bytes × Bytes} (λ e. (e.0, reread (e.1))) entries
reread_entries [] = refl
reread_entries (e ∷ entries) = ap (λ l. (e.0, reread (e.1)) ∷ l) (reread_entries entries)

large : (n : ℕ) → max_val_size + 8 < n → ltb max_val_size n ≡ true
large n h = ground arith

not_large : (n : ℕ) → n ≡ 512 → ltb max_val_size n ≡ false
not_large n h = ground arith

length-reread : (v : Bytes) → max_val_size + 8 < length v → length (reread v) ≡ 512
length-reread v h =
    ap (λ r. length (ref_value r)) (if_true _ _ _ (large (length v) h))
    ∙ omega (
      arith,
      length-append (put_be 8 (get_be (take 8 v))) (take 504 (drop 8 v)),
      length-put_be 8 (get_be (take 8 v)),
      length-take 504 (drop 8 v),
      length-drop 8 v,
      h,
    )

-- A leaf's body decodes, by decodeLeafNode, to the keys and to what it makes of the values. Of a packed
-- large value that is 512 bytes, which an encoding of the leaf keeps as a small value: the reference to the
-- overflow pages and the length are gone.
pub decode_leaf_node-large :
    (entries : List (Bytes × Bytes)) (next_leaf : ℕ)
    → IsLeaf entries next_leaf
    → (body : Bytes) × (encode_leaf_node entries next_leaf ≡ ok body)
      × (decode_leaf_node body ≡ ok (map (λ e. (e.0, reread (e.1))) entries, next_leaf))
      × ((v : Bytes)
          → max_val_size + 8 < length v
          → ((ref_of v).has_overflow ≡ true)
            × ((ref_of (reread v)).has_overflow ≡ false)
            × ((ref_of (reread v)).total_len ≡ 512))
unfolding decode_leaf_node
decode_leaf_node-large entries next_leaf l =
    let (body, e, size, t, d) = decode-encode_leaf_node entries next_leaf l in
    (
      body,
      e,
      rw d (ap (λ es. ok (es, next_leaf)) (reread_entries entries)),
      λ v h.
          let small = if_false _ _ _ (not_large (length (reread v)) (length-reread v h)) in
          (
            ap (λ (r : LeafValueRef). r.has_overflow) (if_true _ _ _ (large (length v) h)),
            ap (λ (r : LeafValueRef). r.has_overflow) small,
            ap (λ (r : LeafValueRef). r.total_len) small ∙ length-reread v h,
          ),
    )
