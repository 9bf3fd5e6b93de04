-- ===== src/Kv/Chain.antt =====
-- The pages of a large value, written and read back.
use plomvix.Base.{
  ℕ, zero, suc, ◌+◌, ◌-◌, ◌*◌, ◌≤◌, ◌<◌, ◌≡◌, ◌≢◌, refl, sym, ap, ◌∙◌, ◌⊎◌, inl, inr, true, false,
  List, [], ◌∷◌, ◌++◌, length, take, drop, length-append, length-take, length-drop, take-drop,
  take-length, take-append, drop-append, append_assoc, append-nil, arith, All, none, ok, ◌==◌, ltb,
  if_false, if_true,
}
use plomvix.Base.Bytes.{put_be, get_be, length-put_be, get_be-put_be}
use plomvix.Base.Int.{IsU64}
use plomvix.Pager.{sentinel, IsCrc32}
use plomvix.Pager.FilePager.{FilePager, read_page}
use plomvix.Pager.FilePager.Reads.{IsInUse, write_page-read_page}
use plomvix.Kv.{Bytes, max_val_size, max_val_size_enterprise, max_overflow_chain_len}
use plomvix.Kv.Node.{fill, decode_overflow_page, overflow_chunk_size}
use plomvix.Kv.Node.Fill.{take-fill}
use plomvix.Kv.Node.Slot.{ref_of, fill_full}
use plomvix.Kv.Node.Overflow.{decode-encode_overflow_page}
use plomvix.Kv.Pages.{M, and_then, lift, wrap, ◌>>=◌, write}
use plomvix.Kv.Store.{read_page_keeps}
use plomvix.Kv.Search.{is_end, read_chain, read_overflow_value}
use plomvix.Kv.Set.{first_or, num_overflow, write_chunks, write_overflow_chain}

-- What is read of a page's chunk is what was written to it.
chunk_kept :
    (remaining : Bytes)
    → take (length remaining) (fill overflow_chunk_size (take overflow_chunk_size remaining))
      ≡ take overflow_chunk_size remaining
chunk_kept remaining = elim (either (length remaining)) [
  | inl h ↦
      ap (take (length remaining)) (
        fill_full overflow_chunk_size (take overflow_chunk_size remaining)
          (omega (arith, length-take overflow_chunk_size remaining, h))
        ∙ take-length overflow_chunk_size (take overflow_chunk_size remaining)
            (omega (arith, length-take overflow_chunk_size remaining)))
      ∙ take-length (length remaining) (take overflow_chunk_size remaining)
          (omega (arith, length-take overflow_chunk_size remaining))
  | inr h ↦
      ap (λ x. take (length remaining) (fill overflow_chunk_size x))
        (take-length overflow_chunk_size remaining h)
      ∙ ap (take (length remaining)) (sym (append-nil (fill overflow_chunk_size remaining)))
      ∙ take-fill overflow_chunk_size remaining [] h
      ∙ sym (take-length overflow_chunk_size remaining h)
]
  where
    either : (n : ℕ) → (overflow_chunk_size ≤ n) ⊎ (n ≤ overflow_chunk_size)
    either n = ground arith

-- Pages for a chain: in use, none twice.
abbrev pub IsFree : FilePager → List ℕ → Type 0
IsFree p [] = Unit
IsFree p (id ∷ ids) = (IsInUse p id × (id < sentinel)) × All (λ j. id ≢ j) ids × IsFree p ids

turned : (id : ℕ) (ids : List ℕ) → All (λ j. id ≢ j) ids → All (λ j. j ≢ id) ids
turned id [] h = tt
turned id (j ∷ ids) h = (λ e. h.0 (sym e), turned id ids h.1)

not_end : (id : ℕ) → 2 ≤ id → id < sentinel → is_end id ≡ false
not_end id h g = ground arith

first_or-IsU64 : (p : FilePager) (ids : List ℕ) → IsFree p ids → IsU64 (first_or sentinel ids)
first_or-IsU64 p [] h = omega arith
first_or-IsU64 p (id ∷ ids) h = omega (arith, h.0.1)

IsFree-mono :
    (p q : FilePager)
    → ((j : ℕ) → IsInUse p j → IsInUse q j)
    → (ids : List ℕ) → IsFree p ids
    → IsFree q ids
IsFree-mono p q f [] h = tt
IsFree-mono p q f (id ∷ ids) h = ((f id h.0.0, h.0.1), h.1, IsFree-mono p q f ids h.2)

whole_buffer : (n : ℕ) → (n == n + 0) ≡ true
whole_buffer n = ground arith

module _ (crc32 : List ℕ → ℕ) where
  -- A chain of pages from which a value's remaining bytes are read.
  abbrev pub HoldsChain : FilePager → List ℕ → Bytes → Type 0
  HoldsChain q ids remaining =
      (left : ℕ) (buf : Bytes)
      → length ids ≤ left
      → read_chain crc32 none left (length buf + length remaining) (first_or sentinel ids) buf q
        ≡ (q, ok (buf ++ remaining))

  no_chain : (q : FilePager) (remaining : Bytes) → length remaining ≤ 0 → HoldsChain q [] remaining
  unfolding read_chain
  no_chain q [] h zero buf le =
      rw (whole_buffer (length buf)) (ap (λ b. (q, ok b)) (sym (append-nil buf)))
  no_chain q [] h (suc left) buf le =
      rw (whole_buffer (length buf)) (ap (λ b. (q, ok b)) (sym (append-nil buf)))
  no_chain q (b ∷ remaining) h left buf le = absurd (omega (arith, h))

  next_chain :
      (q : FilePager) (id : ℕ) (ids : List ℕ) (remaining body : Bytes)
      → 2 ≤ id
      → id < sentinel
      → read_page crc32 none q id ≡ (q, ok body)
      → decode_overflow_page body
        ≡ ok (first_or sentinel ids, fill overflow_chunk_size (take overflow_chunk_size remaining))
      → HoldsChain q ids (drop overflow_chunk_size remaining)
      → HoldsChain q (id ∷ ids) remaining
  unfolding read_chain
  next_chain q id ids remaining body two small r d rest zero buf le = absurd (omega (arith, le))
  next_chain q id ids remaining body two small r d rest (suc left) buf le =
      ap (λ m. m q) (if_false {A = M Bytes} _ _ _ (not_end id two small))
      ∙ ap
          (λ o. and_then (wrap o) (λ b. lift (decode_overflow_page b) >>= λ page.
            read_chain crc32 none left (length buf + length remaining) (page.0)
              (buf ++ take (length buf + length remaining - length buf) (page.1))))
          r
      ∙ ap
          (λ x. and_then (lift x q) (λ page.
            read_chain crc32 none left (length buf + length remaining) (page.0)
              (buf ++ take (length buf + length remaining - length buf) (page.1))))
          d
      ∙ ap
          (λ b.
            read_chain crc32 none left (length buf + length remaining) (first_or sentinel ids) b q)
          (ap (λ m. buf ++ take m (fill overflow_chunk_size (take overflow_chunk_size remaining)))
              same
            ∙ ap (λ x. buf ++ x) (chunk_kept remaining))
      ∙ ap (λ total. read_chain crc32 none left total (first_or sentinel ids) longer q) whole
      ∙ rest left longer (omega (arith, le))
      ∙ ap (λ b. (q, ok b))
          (append_assoc buf (take overflow_chunk_size remaining)
              (drop overflow_chunk_size remaining)
            ∙ ap (λ x. buf ++ x) (take-drop overflow_chunk_size remaining))
    where
      longer : Bytes
      longer = buf ++ take overflow_chunk_size remaining

      same : length buf + length remaining - length buf ≡ length remaining
      same = omega arith

      whole :
          length buf + length remaining
          ≡ length longer + length (drop overflow_chunk_size remaining)
      whole = omega (
        arith,
        length-append buf (take overflow_chunk_size remaining),
        length-take overflow_chunk_size remaining,
        length-drop overflow_chunk_size remaining,
      )

module _ (crc32 : List ℕ → ℕ) (crc : IsCrc32 crc32) where
  -- What the writing of a chain leaves.
  pub record IsChained (p q : FilePager) (ids : List ℕ) (remaining : Bytes) : Type 0 where
    pub holds : HoldsChain crc32 q ids remaining
    pub others :
        (j : ℕ)
        → All (λ id. id ≢ j) ids
        → IsInUse p j
        → (read_page crc32 none q j).1 ≡ (read_page crc32 none p j).1
    pub in_use : (j : ℕ) → IsInUse p j → IsInUse q j

  pub write_chunks-read_chain :
      (ids : List ℕ) (remaining : Bytes) (p : FilePager)
      → IsFree p ids
      → length remaining ≤ overflow_chunk_size * length ids
      → (q : FilePager) × (write_chunks crc32 none ids remaining p ≡ (q, ok tt))
        × (q.in_txn ≡ p.in_txn)
        × IsChained p q ids remaining
  unfolding write_chunks
  write_chunks-read_chain [] remaining p f h = (
    p,
    refl,
    refl,
    record {
      holds = no_chain crc32 p remaining (omega (arith, h));
      others = λ j a u. refl;
      in_use = λ j u. u;
    },
  )
  write_chunks-read_chain (id ∷ ids) remaining p f h =
      let chunk : Bytes = take overflow_chunk_size remaining in
      let (body, e, size, d) =
        decode-encode_overflow_page (first_or sentinel ids) chunk (first_or-IsU64 p ids f.2)
          (omega (arith, length-take overflow_chunk_size remaining)) in
      let (p1, run, same, w) = write_page-read_page crc32 crc p id body f.0.0 size in
      let (q, run2, same2, c) =
        write_chunks-read_chain ids (drop overflow_chunk_size remaining) p1
          (IsFree-mono p p1 w.in_use ids f.2)
          (omega (arith, length-drop overflow_chunk_size remaining, h)) in
      (
        q,
        ap
              (λ x. and_then (lift x p) (λ b. write crc32 none id b >>= λ u.
                write_chunks crc32 none ids (drop overflow_chunk_size remaining)))
              e
            ∙ ap
                (λ o.
                  and_then (wrap o)
                    (λ u. write_chunks crc32 none ids (drop overflow_chunk_size remaining)))
                run
            ∙ run2,
        same2 ∙ same,
        record {
          holds =
              next_chain crc32 q id ids remaining body (f.0.0.is_data) (f.0.1)
                (read_page_keeps crc32 none q id
                  ∙ ap (λ x. (q, x))
                      (c.others id (turned id ids f.1) (w.in_use id f.0.0) ∙ ap (λ o. o.1) w.reads))
                d (c.holds);
          others = λ j a u. c.others j (a.1) (w.in_use j u) ∙ w.others j (a.0) u;
          in_use = λ j u. c.in_use j (w.in_use j u);
        },
      )

-- The pages that a value needs hold what its slot does not, and are no more than a chain may have.
num_overflow-bounds :
    (v : Bytes)
    → max_val_size < length v
    → length v ≤ max_val_size_enterprise
    → (length v - 504 ≤ overflow_chunk_size * num_overflow v)
      × (1 ≤ num_overflow v)
      × (num_overflow v ≤ max_overflow_chain_len)
unfolding num_overflow
num_overflow-bounds v h g = (omega (arith, h), omega (arith, h), omega (arith, h, g))

-- What a slot keeps of a packed value.
packed_ref :
    (id : ℕ) (v : Bytes)
    → IsU64 id
    → max_val_size < length v
    → ref_of (put_be 8 id ++ v) ≡ record {
      total_len = length v;
      inline = take 504 v;
      overflow_page_id = id;
      has_overflow = true;
    }
packed_ref id v h large =
    if_true _ _ _ (stays (length (put_be 8 id ++ v)) (omega (arith, size, large))) ∙ (λ i. record {
      total_len = total i;
      inline = take 504 (drop-append 8 (put_be 8 id) v (length-put_be 8 id) i);
      overflow_page_id = number i;
      has_overflow = true;
    })
  where
    size : length (put_be 8 id ++ v) ≡ 8 + length v
    size = omega (arith, length-append (put_be 8 id) v, length-put_be 8 id)

    total : length (put_be 8 id ++ v) - 8 ≡ length v
    total = omega (arith, size)

    number : get_be (take 8 (put_be 8 id ++ v)) ≡ id
    number = ap get_be (take-append 8 (put_be 8 id) v (length-put_be 8 id)) ∙ get_be-put_be 8 id h

    stays : (n : ℕ) → max_val_size < n → ltb max_val_size n ≡ true
    stays n h = ground arith

first_page :
    (p : FilePager) (ids : List ℕ)
    → 1 ≤ length ids
    → IsFree p ids
    → (first_or sentinel ids ≡ first_or 0 ids) × IsU64 (first_or 0 ids)
first_page p [] h f = absurd (omega (arith, h))
first_page p (id ∷ ids) h f = (refl, omega (arith, f.0.1))

module _ (crc32 : List ℕ → ℕ) (crc : IsCrc32 crc32) where
  read_packed :
      (v : Bytes) (id : ℕ) (q : FilePager)
      → max_val_size < length v
      → IsU64 id
      → read_overflow_value crc32 none (ref_of (put_be 8 id ++ v)) q
        ≡ read_chain crc32 none max_overflow_chain_len
            (length (take 504 v) + length (drop 504 v))
            id
            (take 504 v)
            q
  unfolding read_overflow_value
  read_packed v id q large h =
      ap (λ r. read_overflow_value crc32 none r q) (packed_ref id v h large)
      ∙ ap (λ b. read_chain crc32 none max_overflow_chain_len (length v) id b q)
          (take-length (length v) (take 504 v) (omega (arith, length-take 504 v)))
      ∙ ap (λ n. read_chain crc32 none max_overflow_chain_len n id (take 504 v) q)
          (omega (arith, length-take 504 v, length-drop 504 v))

  -- The chain of a large value is written to the pages that were prepared for it, in or out of a
  -- transaction. What a leaf's slot keeps of the packed value then leads to the whole value, and every
  -- other page in use reads as before.
  pub write_overflow_chain-read_overflow_value :
      (v : Bytes) (ids : List ℕ) (p : FilePager)
      → max_val_size < length v
      → length v ≤ max_val_size_enterprise
      → length ids ≡ num_overflow v
      → IsFree p ids
      → (q : FilePager) × (write_overflow_chain crc32 none ids v p ≡ (q, ok tt))
        × (q.in_txn ≡ p.in_txn)
        × (read_overflow_value crc32 none (ref_of (put_be 8 (first_or 0 ids) ++ v)) q ≡ (q, ok v))
        × ((j : ℕ)
            → All (λ id. id ≢ j) ids
            → IsInUse p j
            → (read_page crc32 none q j).1 ≡ (read_page crc32 none p j).1)
  unfolding read_overflow_value
  write_overflow_chain-read_overflow_value v ids p large fits count f =
      let (enough, some_page, few) = num_overflow-bounds v large fits in
      let (q, run, same, c) =
        write_chunks-read_chain crc32 crc ids (drop 504 v) p f
          (omega (arith, length-drop 504 v, enough, count)) in
      let (first, small) = first_page p ids (omega (arith, some_page, count)) f in
      (
        q,
        run,
        same,
        read_packed v (first_or 0 ids) q large small
            ∙ ap
                (λ id.
                  read_chain crc32 none max_overflow_chain_len
                    (length (take 504 v) + length (drop 504 v)) id (take 504 v) q)
                (sym first)
            ∙ c.holds max_overflow_chain_len (take 504 v) (omega (arith, few, count))
            ∙ ap (λ b. (q, ok b)) (take-drop 504 v),
        c.others,
      )
