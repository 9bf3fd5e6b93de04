-- ===== src/Kv/Node/Overflow.antt =====
-- The meta page, and the overflow pages of a large value.
use plomvix.Base.{
  ℕ, ◌+◌, ◌-◌, ◌≤◌, ◌≡◌, refl, sym, ap, ◌∙◌, take-length, ◌∷◌, ◌++◌, arith, length, drop,
  length-append, ok,
}
use plomvix.Base.Bytes.{put_be, length-put_be, get_be-put_be}
use plomvix.Base.Int.{IsU64}
use plomvix.Pager.{body_size}
use plomvix.Pager.Page.{zeros, length-zeros}
use plomvix.Pager.Header.{number_at}
use plomvix.Kv.{Bytes}
use plomvix.Kv.Node.{
  fill, encode_meta_page, decode_meta_page, encode_overflow_page, decode_overflow_page,
  overflow_chunk_size,
}
use plomvix.Kv.Node.Fill.{length-fill, fill_fits}
use plomvix.Kv.Node.Slot.{small_enough, fill_full}

-- The meta page gives the root back.
pub decode-encode_meta_page :
    (root : ℕ) → IsU64 root → decode_meta_page (encode_meta_page root) ≡ ok root
decode-encode_meta_page root h =
    let content : Bytes = 3 ∷ put_be 8 root in
    let laid : fill body_size content ≡ content ++ zeros (body_size - length content) =
      fill_fits body_size content (omega (arith, length-put_be 8 root)) in
    (unfold decode_meta_page encode_meta_page in
      rw (length-fill body_size content, laid) (ap ok (unfold put_be in get_be-put_be 8 root h)))

same_padding :
    (chunk : Bytes) (n : ℕ)
    → length chunk ≤ overflow_chunk_size
    → n ≡ 9 + length chunk
    → fill overflow_chunk_size (chunk ++ zeros (body_size - n)) ≡ fill overflow_chunk_size chunk
same_padding chunk n fits e =
    ap (λ k. fill overflow_chunk_size (chunk ++ zeros k)) (omega (arith, e, fits))
    ∙ fill_full overflow_chunk_size whole (omega (arith, size))
    ∙ take-length overflow_chunk_size whole (omega (arith, size))
    ∙ sym (fill_fits overflow_chunk_size chunk fits)
  where
    whole : Bytes
    whole = chunk ++ zeros (overflow_chunk_size - length chunk)

    size : length whole ≡ overflow_chunk_size
    size = omega (
      arith,
      length-append chunk (zeros (overflow_chunk_size - length chunk)),
      length-zeros (overflow_chunk_size - length chunk),
      fits,
    )

-- An overflow page gives its chunk back with zeros behind, up to the size of a chunk.
pub decode-encode_overflow_page :
    (next_ptr : ℕ) (chunk : Bytes)
    → IsU64 next_ptr
    → length chunk ≤ overflow_chunk_size
    → (body : Bytes) × (encode_overflow_page next_ptr chunk ≡ ok body)
      × (length body ≡ body_size)
      × (decode_overflow_page body ≡ ok (next_ptr, fill overflow_chunk_size chunk))
decode-encode_overflow_page next_ptr chunk h fits =
    let content : Bytes = 4 ∷ (put_be 8 next_ptr ++ chunk) in
    let z : Bytes = zeros (body_size - length content) in
    let size : length content ≡ 9 + length chunk =
      omega (arith, length-append (put_be 8 next_ptr) chunk, length-put_be 8 next_ptr) in
    let laid : fill body_size content ≡ content ++ z =
      fill_fits body_size content (omega (arith, size, fits)) in
    let number : number_at (content ++ z) 1 8 ≡ next_ptr =
      unfold put_be in get_be-put_be 8 next_ptr h in
    let behind : drop 9 (content ++ z) ≡ chunk ++ z = unfold put_be in refl in
    let padded : fill overflow_chunk_size (chunk ++ z) ≡ fill overflow_chunk_size chunk =
      same_padding chunk (length content) fits size in
    (
      fill body_size content,
      (unfold encode_overflow_page in
          rw (small_enough (length chunk) overflow_chunk_size fits) refl),
      length-fill body_size content,
      (unfold decode_overflow_page in
          rw (length-fill body_size content, laid, number, behind, padded) refl),
    )
