-- ===== src/Kv/Node.antt =====
-- node.go: the bodies of the tree's pages. The keys of a leaf and their values come as pairs, and so
-- do an internal node's keys and the children to the right of them.
pub mod Fill
pub mod Slot
pub mod Leaf
pub mod Internal
pub mod Overflow
pub mod Large
use plomvix.Base.{
  ℕ, zero, suc, ◌+◌, ◌-◌, ◌^◌, ◌%◌, Bool, true, false, List, [], ◌∷◌, ◌++◌, map, length, take, drop,
  ◌==◌, ltb, leb, if◌then◌else◌, Result, ok, err, require, ◌>>=◌, ◌>>◌,
}
use plomvix.Base.Bytes.{put_be}
use plomvix.Pager.{body_size}
use plomvix.Pager.Page.{zeros}
use plomvix.Pager.Header.{number_at}
use plomvix.Kv.{
  Bytes, Error, key_too_large, value_too_large, tree_corrupt, max_key_size, max_val_size,
  max_leaf_keys, max_internal_keys, leaf_slot_size, internal_slot_size, max_val_size_enterprise,
  node_type_leaf, node_type_internal, node_type_meta, node_type_overflow, ascending,
}

-- copy into `n` zero bytes
unfoldable pub fill : ℕ → Bytes → Bytes
fill n bs = take n bs ++ zeros (n - length bs)

-- data[0], on a body that is not empty
abbrev pub first_byte : Bytes → ℕ
first_byte [] = 0
first_byte (b ∷ bs) = b

-- encodeMetaPage
unfoldable pub encode_meta_page : ℕ → Bytes
encode_meta_page root = fill body_size (node_type_meta ∷ put_be 8 root)

-- decodeMetaPage
unfoldable pub decode_meta_page : Bytes → Result Error ℕ
decode_meta_page body = do
  require (length body == body_size) tree_corrupt
  require (first_byte body == node_type_meta) tree_corrupt
  ok (number_at body 1 8)

-- The header of a leaf and of an internal node.
abbrev pub node_header : ℕ → ℕ → ℕ → Bytes
node_header node_type count page_id = node_type ∷ (put_be 2 (count % 2 ^ 16) ++ put_be 8 page_id)

pub record LeafValueRef : Type 0 where
  pub total_len : ℕ
  pub inline : Bytes
  pub overflow_page_id : ℕ
  pub has_overflow : Bool

-- A leaf's slot: the key, and the value or the packed form of a large one.
unfoldable pub leaf_slot : Bytes → Bytes → Bytes
leaf_slot k v =
    let large = put_be 4 ((length v - 8) % 2 ^ 32) ++ (take 8 v ++ fill 504 (drop 8 v)) in
    let small = put_be 4 (length v % 2 ^ 32) ++ fill 512 v in
    (length k % 256) ∷ (fill 63 k ++ (if ltb max_val_size (length v) then large else small))

unfoldable pub encode_leaf_slots : List (Bytes × Bytes) → Result Error Bytes
encode_leaf_slots [] = ok []
encode_leaf_slots ((k, v) ∷ entries) = do
  require (leb (length k) max_key_size) key_too_large
  require (leb (length v) max_val_size_enterprise) value_too_large
  rest ← encode_leaf_slots entries
  ok (leaf_slot k v ++ rest)

-- encodeLeafNode
unfoldable pub encode_leaf_node : List (Bytes × Bytes) → ℕ → Result Error Bytes
encode_leaf_node entries next_leaf = do
  require (leb (length entries) max_leaf_keys) tree_corrupt
  require (ascending (map (λ e. e.0) entries)) tree_corrupt
  slots ← encode_leaf_slots entries
  ok (fill body_size (node_header node_type_leaf (length entries) next_leaf ++ slots))

-- The key and the value's reference of one slot.
unfoldable pub decode_leaf_slot : Bytes → Result Error (Bytes × LeafValueRef)
decode_leaf_slot slot =
    let n = first_byte slot in
    let total = number_at slot 64 4 in
    let large : LeafValueRef = record {
      total_len = total;
      inline = take 504 (drop 76 slot);
      overflow_page_id = number_at slot 68 8;
      has_overflow = true;
    } in
    let small : LeafValueRef = record {
      total_len = total;
      inline = take total (drop 68 slot);
      overflow_page_id = 0;
      has_overflow = false;
    } in
    (do
      require (leb n max_key_size) tree_corrupt
      require (leb total max_val_size_enterprise) tree_corrupt
      ok (take n (drop 1 slot), if ltb max_val_size total then large else small))

unfoldable pub decode_leaf_slots : ℕ → Bytes → Result Error (List (Bytes × LeafValueRef))
decode_leaf_slots zero bs = ok []
decode_leaf_slots (suc count) bs = do
  e ← decode_leaf_slot (take leaf_slot_size bs)
  rest ← decode_leaf_slots count (drop leaf_slot_size bs)
  ok (e ∷ rest)

-- decodeLeafNodeRefs: the entries and nextLeaf.
unfoldable pub decode_leaf_node_refs : Bytes → Result Error (List (Bytes × LeafValueRef) × ℕ)
decode_leaf_node_refs body = do
  require (length body == body_size) tree_corrupt
  require (first_byte body == node_type_leaf) tree_corrupt
  require (leb (number_at body 1 2) max_leaf_keys) tree_corrupt
  entries ← decode_leaf_slots (number_at body 1 2) (drop 11 body)
  ok (entries, number_at body 3 8)

-- The value that decodeLeafNode makes of a reference.
abbrev pub ref_value : LeafValueRef → Bytes
ref_value r = if r.has_overflow then put_be 8 r.overflow_page_id ++ r.inline else r.inline

-- decodeLeafNode
unfoldable pub decode_leaf_node : Bytes → Result Error (List (Bytes × Bytes) × ℕ)
decode_leaf_node body = do
  (entries, next_leaf) ← decode_leaf_node_refs body
  ok (map (λ e. (e.0, ref_value (e.1))) entries, next_leaf)

unfoldable pub internal_slot : Bytes → ℕ → Bytes
internal_slot k child = (length k % 256) ∷ (fill 63 k ++ put_be 8 child)

unfoldable pub encode_internal_slots : List (Bytes × ℕ) → Result Error Bytes
encode_internal_slots [] = ok []
encode_internal_slots ((k, child) ∷ entries) = do
  require (leb (length k) max_key_size) key_too_large
  rest ← encode_internal_slots entries
  ok (internal_slot k child ++ rest)

-- encodeInternalNode: the first child, and each key with the child to its right.
unfoldable pub encode_internal_node : ℕ → List (Bytes × ℕ) → Result Error Bytes
encode_internal_node first entries = do
  require (leb (length entries) max_internal_keys) tree_corrupt
  require (ascending (map (λ e. e.0) entries)) tree_corrupt
  slots ← encode_internal_slots entries
  ok (fill body_size (node_header node_type_internal (length entries) first ++ slots))

unfoldable pub decode_internal_slot : Bytes → Result Error (Bytes × ℕ)
decode_internal_slot slot = do
  require (leb (first_byte slot) max_key_size) tree_corrupt
  ok (take (first_byte slot) (drop 1 slot), number_at slot 64 8)

unfoldable pub decode_internal_slots : ℕ → Bytes → Result Error (List (Bytes × ℕ))
decode_internal_slots zero bs = ok []
decode_internal_slots (suc count) bs = do
  e ← decode_internal_slot (take internal_slot_size bs)
  rest ← decode_internal_slots count (drop internal_slot_size bs)
  ok (e ∷ rest)

-- decodeInternalNode
unfoldable pub decode_internal_node : Bytes → Result Error (ℕ × List (Bytes × ℕ))
decode_internal_node body = do
  require (length body == body_size) tree_corrupt
  require (first_byte body == node_type_internal) tree_corrupt
  require (leb (number_at body 1 2) max_internal_keys) tree_corrupt
  entries ← decode_internal_slots (number_at body 1 2) (drop 11 body)
  ok (number_at body 3 8, entries)

abbrev pub overflow_chunk_size : ℕ
overflow_chunk_size = 4075

-- encodeOverflowPage
unfoldable pub encode_overflow_page : ℕ → Bytes → Result Error Bytes
encode_overflow_page next_ptr chunk = do
  require (leb (length chunk) overflow_chunk_size) tree_corrupt
  ok (fill body_size (node_type_overflow ∷ (put_be 8 next_ptr ++ chunk)))

-- decodeOverflowPage
unfoldable pub decode_overflow_page : Bytes → Result Error (ℕ × Bytes)
decode_overflow_page body = do
  require (length body == body_size) tree_corrupt
  require (first_byte body == node_type_overflow) tree_corrupt
  ok (number_at body 1 8, fill overflow_chunk_size (drop 9 body))
