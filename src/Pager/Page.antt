-- ===== src/Pager/Page.antt =====
-- page.go: [8 reserved bytes][checksum of the body][body], and the body of a free page.
use plomvix.Base.{
  ℕ, ◌+◌, ◌-◌, ◌≡◌, sym, ap, ◌∙◌, List, ◌++◌, arith, append_assoc, length, take, drop, replicate,
  length-append, length-replicate, drop-append, take-append, ◌==◌, if◌then◌else◌, Result, ok, err,
  ==_refl,
}
use plomvix.Base.Bytes.{put_be, get_be, length-put_be, get_be-put_be}
use plomvix.Base.Int.{IsU64}
use plomvix.Pager.{Error, page_corrupt, body_size_mismatch, page_size, body_size, IsCrc32}

abbrev pub zeros : ℕ → List ℕ
zeros n = replicate n 0

pub length-zeros : (n : ℕ) → length (zeros n) ≡ n
length-zeros n = length-replicate n 0

module _ (crc32 : List ℕ → ℕ) where
  -- encodeDataPage
  unfoldable pub encode_data_page : List ℕ → Result Error (List ℕ)
  encode_data_page body =
      if length body == body_size
      then ok (zeros 8 ++ (put_be 4 (crc32 body) ++ body))
      else err body_size_mismatch

  -- decodeDataPage
  unfoldable pub decode_data_page : List ℕ → Result Error (List ℕ)
  decode_data_page image =
      if length image == page_size
      then (if get_be (take 4 (drop 8 image)) == crc32 (drop 12 image)
          then ok (drop 12 image)
          else err page_corrupt)
      else err page_corrupt

-- encodeFreeListPointer
unfoldable pub encode_free_list_pointer : ℕ → List ℕ
encode_free_list_pointer next = put_be 8 next ++ zeros (body_size - 8)

-- decodeFreeListPointer
unfoldable pub decode_free_list_pointer : List ℕ → Result Error ℕ
decode_free_list_pointer body =
    if length body == body_size then ok (get_be (take 8 body)) else err page_corrupt

pub length-encode_free_list_pointer :
    (next : ℕ) → length (encode_free_list_pointer next) ≡ body_size
unfolding encode_free_list_pointer
length-encode_free_list_pointer next = omega (
  arith,
  length-append (put_be 8 next) (zeros (body_size - 8)),
  length-put_be 8 next,
  length-zeros (body_size - 8),
)

pub decode-encode_free_list_pointer :
    (next : ℕ) → IsU64 next → decode_free_list_pointer (encode_free_list_pointer next) ≡ ok next
unfolding decode_free_list_pointer
decode-encode_free_list_pointer next h = rw (length-encode_free_list_pointer next) (
    unfold encode_free_list_pointer in
    rw (
      take-append 8 (put_be 8 next) (zeros (body_size - 8)) (length-put_be 8 next),
      get_be-put_be 8 next h,
    ))

module _ (crc32 : List ℕ → ℕ) (crc : IsCrc32 crc32) where
  layout : List ℕ → List ℕ
  layout body = zeros 8 ++ (put_be 4 (crc32 body) ++ body)

  length-layout : (body : List ℕ) → length (layout body) ≡ length body + 12
  unfolding layout
  length-layout body = omega (
    arith,
    length-append (zeros 8) (put_be 4 (crc32 body) ++ body),
    length-append (put_be 4 (crc32 body)) body,
    length-put_be 4 (crc32 body),
    length-zeros 8,
  )

  body-layout : (body : List ℕ) → drop 12 (layout body) ≡ body
  unfolding layout
  body-layout body =
      ap (drop 12) (sym (append_assoc (zeros 8) (put_be 4 (crc32 body)) body))
      ∙ drop-append 12 (zeros 8 ++ put_be 4 (crc32 body)) body (
          omega (
            arith,
            length-append (zeros 8) (put_be 4 (crc32 body)),
            length-put_be 4 (crc32 body),
            length-zeros 8,
          ))

  checksum-layout : (body : List ℕ) → get_be (take 4 (drop 8 (layout body))) ≡ crc32 body
  unfolding layout
  checksum-layout body =
      ap (λ (l : List ℕ). get_be (take 4 l))
        (drop-append 8 (zeros 8) (put_be 4 (crc32 body) ++ body) (length-zeros 8))
      ∙ ap get_be (take-append 4 (put_be 4 (crc32 body)) body (length-put_be 4 (crc32 body)))
      ∙ get_be-put_be 4 (crc32 body) (omega (arith, crc.fits body))

  -- A body of the right size has a page image, of one page, that decodes to it.
  pub encode_data_page-total :
      (body : List ℕ)
      → length body ≡ body_size
      → (image : List ℕ) × (encode_data_page crc32 body ≡ ok image)
        × (length image ≡ page_size)
        × (decode_data_page crc32 image ≡ ok body)
  encode_data_page-total body h = (
    layout body,
    (unfold encode_data_page layout in rw h),
    size,
    (unfold decode_data_page in rw (size, checksum-layout body, body-layout body, ==_refl)),
  )
    where
      size : length (layout body) ≡ page_size
      size = omega (arith, length-layout body)
