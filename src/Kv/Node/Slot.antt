-- ===== src/Kv/Node/Slot.antt =====
-- A slot of a leaf decodes to the entry that it was made from.
use plomvix.Base.{
  ℕ, zero, suc, ◌+◌, ◌-◌, ◌^◌, ◌%◌, ◌≤◌, ◌<◌, ◌≡◌, ◌⊎◌, inl, inr, refl, sym, ap, ◌∙◌, true, false,
  [], ◌∷◌, ◌++◌, arith, append_assoc, append-nil, length, take, drop, length-append, length-take,
  length-drop, take-append, drop-append, take-length, ltb, leb, if◌then◌else◌, ok,
}
use native.Mathlib.Nat.{mod-eq_of_lt}
use plomvix.Base.Bytes.{put_be, get_be, length-put_be, get_be-put_be}
use plomvix.Pager.Page.{zeros, length-zeros}
use plomvix.Pager.Header.{number_at}
use plomvix.Kv.{Bytes, max_key_size, max_val_size, max_val_size_enterprise}
use plomvix.Kv.Node.{fill, first_byte, LeafValueRef, leaf_slot, leaf_slot_size, decode_leaf_slot}
use plomvix.Kv.Node.Fill.{length-fill, take-fill, window}

-- A key and a value as the store hands them to a leaf: small, or large and packed.
pub record IsStored (e : Bytes × Bytes) : Type 0 where
  pub key_fits : length e.0 ≤ max_key_size
  pub value_fits :
      (length e.1 ≤ max_val_size)
      ⊎ ((max_val_size + 8 < length e.1) × (length e.1 ≤ max_val_size_enterprise))

-- What a slot keeps of a value.
abbrev pub ref_of : Bytes → LeafValueRef
ref_of v =
    let large : LeafValueRef = record {
      total_len = length v - 8;
      inline = take 504 (drop 8 v);
      overflow_page_id = get_be (take 8 v);
      has_overflow = true;
    } in
    let small : LeafValueRef = record {
      total_len = length v;
      inline = v;
      overflow_page_id = 0;
      has_overflow = false;
    } in
    if ltb max_val_size (length v) then large else small

abbrev pub ref_entry : Bytes × Bytes → Bytes × LeafValueRef
ref_entry e = (e.0, ref_of (e.1))

drop-nil : (n : ℕ) → drop {A = ℕ} n [] ≡ []
drop-nil zero = refl
drop-nil (suc n) = refl

drop-drop : (m n k : ℕ) (xs : Bytes) → k ≡ m + n → drop k xs ≡ drop n (drop m xs)
drop-drop zero n k xs e = ap (λ i. drop i xs) (omega (arith, e))
drop-drop (suc m) n zero xs e = absurd (omega (arith, e))
drop-drop (suc m) n (suc k) [] e = sym (drop-nil n)
drop-drop (suc m) n (suc k) (x ∷ xs) e = drop-drop m n k xs (omega (arith, e))

empty : (bs : Bytes) → length bs ≡ 0 → bs ≡ []
empty [] h = refl
empty (b ∷ bs) h = absurd (omega arith)

pub fill_full : (n : ℕ) (bs : Bytes) → n ≤ length bs → fill n bs ≡ take n bs
unfolding fill
fill_full n bs h =
    ap (λ z. take n bs ++ z)
      (empty (zeros (n - length bs)) (omega (arith, length-zeros (n - length bs), h)))
    ∙ append-nil (take n bs)

not_large : (n : ℕ) → n ≤ max_val_size → ltb max_val_size n ≡ false
not_large n h = ground arith

is_large : (n : ℕ) → max_val_size + 8 < n → ltb max_val_size n ≡ true
is_large n h = ground arith

pub small_enough : (n m : ℕ) → n ≤ m → leb n m ≡ true
small_enough n m h = ground arith

-- What a slot's decoder makes of the length and the kept bytes.
kept : ℕ → Bytes → LeafValueRef
kept total content =
    let large : LeafValueRef = record {
      total_len = total;
      inline = take 504 (drop 8 content);
      overflow_page_id = get_be (take 8 content);
      has_overflow = true;
    } in
    let small : LeafValueRef = record {
      total_len = total;
      inline = take total content;
      overflow_page_id = 0;
      has_overflow = false;
    } in
    if ltb max_val_size total then large else small

-- A slot with its parts apart: the length of the value and what is kept of it.
slot_of : Bytes → ℕ → Bytes → Bytes
slot_of k total content = (length k % 256) ∷ (fill 63 k ++ (put_be 4 total ++ content))

slot_key :
    (k : Bytes) (total : ℕ) (content : Bytes)
    → length k ≤ max_key_size
    → (first_byte (slot_of k total content) ≡ length k)
      × (take (length k) (drop 1 (slot_of k total content)) ≡ k)
unfolding slot_of
slot_key k total content h = (omega (arith, h), take-fill 63 k (put_be 4 total ++ content) h)

slot_total :
    (k : Bytes) (total : ℕ) (content : Bytes)
    → total < 2 ^ 32
    → number_at (slot_of k total content) 64 4 ≡ total
unfolding slot_of
slot_total k total content h =
    ap get_be
      (window 63 4 (fill 63 k) (put_be 4 total) content (length-fill 63 k) (length-put_be 4 total))
    ∙ get_be-put_be 4 total (omega (arith, h))

slot_content :
    (k : Bytes) (total : ℕ) (content : Bytes) → drop 68 (slot_of k total content) ≡ content
unfolding slot_of
slot_content k total content =
    ap (drop 67) (sym (append_assoc (fill 63 k) (put_be 4 total) content))
    ∙ drop-append 67 (fill 63 k ++ put_be 4 total) content (
        omega (
          arith,
          length-append (fill 63 k) (put_be 4 total),
          length-fill 63 k,
          length-put_be 4 total,
        ))

length-slot_of :
    (k : Bytes) (total : ℕ) (content : Bytes)
    → length (slot_of k total content) ≡ 68 + length content
unfolding slot_of
length-slot_of k total content = omega (
  arith,
  length-append (fill 63 k) (put_be 4 total ++ content),
  length-append (put_be 4 total) content,
  length-fill 63 k,
  length-put_be 4 total,
)

large_content : Bytes → Bytes
large_content v = take 8 v ++ fill 504 (drop 8 v)

large_parts :
    (v : Bytes)
    → max_val_size + 8 < length v
    → (take 8 (large_content v) ≡ take 8 v)
      × (take 504 (drop 8 (large_content v)) ≡ take 504 (drop 8 v))
      × (length (large_content v) ≡ 512)
unfolding large_content
large_parts v h =
    let eight : length (take 8 v) ≡ 8 = omega (arith, length-take 8 v, h) in
    let long : 504 ≤ length (drop 8 v) = omega (arith, length-drop 8 v, h) in
    let whole : fill 504 (drop 8 v) ≡ take 504 (drop 8 v) = fill_full 504 (drop 8 v) long in
    (
      take-append 8 (take 8 v) (fill 504 (drop 8 v)) eight,
      ap (take 504) (drop-append 8 (take 8 v) (fill 504 (drop 8 v)) eight)
          ∙ take-length 504 (fill 504 (drop 8 v)) (omega (arith, length-fill 504 (drop 8 v)))
          ∙ whole,
      omega (
        arith,
        length-append (take 8 v) (fill 504 (drop 8 v)),
        eight,
        length-fill 504 (drop 8 v),
      ),
    )

leaf_slot-small :
    (k v : Bytes) → length v ≤ max_val_size → leaf_slot k v ≡ slot_of k (length v) (fill 512 v)
unfolding leaf_slot slot_of
leaf_slot-small k v h =
    rw (not_large (length v) h)
      (ap (λ n. slot_of k n (fill 512 v)) (mod-eq_of_lt (omega (arith, h))))

leaf_slot-large :
    (k v : Bytes)
    → max_val_size + 8 < length v
    → length v ≤ max_val_size_enterprise
    → leaf_slot k v ≡ slot_of k (length v - 8) (large_content v)
unfolding leaf_slot slot_of large_content
leaf_slot-large k v h fits =
    rw (is_large (length v) h)
      (ap (λ n. slot_of k n (large_content v)) (mod-eq_of_lt (omega (arith, fits))))

decode_slot_of :
    (k : Bytes) (total : ℕ) (content : Bytes)
    → length k ≤ max_key_size
    → total ≤ max_val_size_enterprise
    → decode_leaf_slot (slot_of k total content) ≡ ok (k, kept total content)
unfolding decode_leaf_slot kept
decode_slot_of k total content h fits =
    let (n, key) = slot_key k total content h in
    rw
      (
        n,
        slot_total k total content (omega (arith, fits)),
        small_enough (length k) max_key_size h,
        small_enough total max_val_size_enterprise fits,
        key,
        drop-drop 68 8 76 (slot_of k total content) refl,
        slot_content k total content,
      )
      refl

kept-small : (v : Bytes) → length v ≤ max_val_size → kept (length v) (fill 512 v) ≡ ref_of v
unfolding kept
kept-small v h = rw (not_large (length v) h, take_filled) refl
  where
    take_filled : take (length v) (fill 512 v) ≡ v
    take_filled = ap (take (length v)) (sym (append-nil (fill 512 v))) ∙ take-fill 512 v [] h

kept-large :
    (v : Bytes) → max_val_size + 8 < length v → kept (length v - 8) (large_content v) ≡ ref_of v
unfolding kept
kept-large v h =
    let (page, inline, size) = large_parts v h in
    rw (still_large (length v) h, is_large (length v) h, page, inline) refl
  where
    still_large : (n : ℕ) → max_val_size + 8 < n → ltb max_val_size (n - 8) ≡ true
    still_large n h = ground arith

pub decode-slot :
    (e : Bytes × Bytes)
    → IsStored e
    → (decode_leaf_slot (leaf_slot (e.0) (e.1)) ≡ ok (ref_entry e))
      × (length (leaf_slot (e.0) (e.1)) ≡ leaf_slot_size)
decode-slot (k, v) s = elim (s.value_fits) [
  | inl small ↦ (
    ap decode_leaf_slot (leaf_slot-small k v small)
        ∙ decode_slot_of k (length v) (fill 512 v) s.key_fits (omega (arith, small))
        ∙ ap (λ r. ok (k, r)) (kept-small v small),
    ap length (leaf_slot-small k v small)
        ∙ omega (arith, length-slot_of k (length v) (fill 512 v), length-fill 512 v),
  )
  | inr (large, fits) ↦
      (let (page, inline, size) = large_parts v large in
        (
          ap decode_leaf_slot (leaf_slot-large k v large fits)
              ∙ decode_slot_of k (length v - 8) (large_content v) s.key_fits (omega (arith, fits))
              ∙ ap (λ r. ok (k, r)) (kept-large v large),
          ap length (leaf_slot-large k v large fits)
              ∙ omega (arith, length-slot_of k (length v - 8) (large_content v), size),
        ))
]
