-- ===== src/Pager/Header.antt =====
-- header.go: the header page, which stands on pages 0 and 1.
use plomvix.Base.{
  ℕ, ◌-◌, ◌≡◌, refl, ap, ◌∙◌, List, ◌++◌, arith, length, take, drop, length-append, drop-append,
  take-append, ◌==◌, Result, ok, require, ◌>>◌, ==_refl,
}
use plomvix.Base.Bytes.{put_be, get_be, length-put_be, get_be-put_be}
use plomvix.Base.Int.{IsU64}
use plomvix.Pager.{
  Error, header_corrupt, not_a_pager_file, unsupported_version, page_size_mismatch, page_size,
  magic_number, format_version, IsCrc32,
}
use plomvix.Pager.Page.{zeros, length-zeros}

pub record PagerHeader : Type 0 where
  pub magic : ℕ
  pub version : ℕ
  pub page_size_field : ℕ
  pub page_count : ℕ
  pub free_list_head : ℕ
  pub free_page_count : ℕ

-- data[off : off+n] as a big-endian number
abbrev pub number_at : List ℕ → ℕ → ℕ → ℕ
number_at bs off n = get_be (take n (drop off bs))

-- The 36 bytes under the checksum.
unfoldable pub header_fields : PagerHeader → List ℕ
header_fields h =
    put_be 4 h.magic
    ++ (put_be 4 h.version
        ++ (put_be 4 h.page_size_field
            ++ (put_be 8 h.page_count
                ++ (put_be 8 h.free_list_head ++ put_be 8 h.free_page_count))))

module _ (crc32 : List ℕ → ℕ) where
  -- encodeHeader
  unfoldable pub encode_header : PagerHeader → List ℕ
  encode_header h =
      header_fields h ++ (put_be 4 (crc32 (header_fields h)) ++ zeros (page_size - 40))

  -- decodeHeader
  unfoldable pub decode_header : List ℕ → Result Error PagerHeader
  decode_header image = do
    require (length image == page_size) header_corrupt
    require (number_at image 0 4 == magic_number) not_a_pager_file
    require (number_at image 4 4 == format_version) unsupported_version
    require (number_at image 8 4 == page_size) page_size_mismatch
    require (number_at image 36 4 == crc32 (take 36 image)) header_corrupt
    ok (record {
      magic = number_at image 0 4;
      version = number_at image 4 4;
      page_size_field = number_at image 8 4;
      page_count = number_at image 12 8;
      free_list_head = number_at image 20 8;
      free_page_count = number_at image 28 8;
    })

-- A header that this version of the program writes.
pub record IsHeader (h : PagerHeader) : Type 0 where
  pub magic_ok : h.magic ≡ magic_number
  pub version_ok : h.version ≡ format_version
  pub size_ok : h.page_size_field ≡ page_size
  pub count_fits : IsU64 h.page_count
  pub head_fits : IsU64 h.free_list_head
  pub free_fits : IsU64 h.free_page_count

length-header_fields : (h : PagerHeader) → length (header_fields h) ≡ 36
unfolding header_fields put_be
length-header_fields h = refl

-- The numbers of the header stand where the decoder reads them, whatever follows.
header_numbers :
    (h : PagerHeader) (rest : List ℕ)
    → IsHeader h
    → (number_at (header_fields h ++ rest) 0 4 ≡ magic_number)
      × (number_at (header_fields h ++ rest) 4 4 ≡ format_version)
      × (number_at (header_fields h ++ rest) 8 4 ≡ page_size)
      × (number_at (header_fields h ++ rest) 12 8 ≡ h.page_count)
      × (number_at (header_fields h ++ rest) 20 8 ≡ h.free_list_head)
      × (number_at (header_fields h ++ rest) 28 8 ≡ h.free_page_count)
header_numbers h rest v = (
  unfold header_fields put_be get_be in omega (arith, v.magic_ok),
  unfold header_fields put_be get_be in omega (arith, v.version_ok),
  unfold header_fields put_be get_be in omega (arith, v.size_ok),
  unfold header_fields put_be in get_be-put_be 8 h.page_count v.count_fits,
  unfold header_fields put_be in get_be-put_be 8 h.free_list_head v.head_fits,
  unfold header_fields put_be in get_be-put_be 8 h.free_page_count v.free_fits,
)

module _ (crc32 : List ℕ → ℕ) (crc : IsCrc32 crc32) where
  length-encode_header : (h : PagerHeader) → length (encode_header crc32 h) ≡ page_size
  unfolding encode_header
  length-encode_header h = omega (
    arith,
    length-append (header_fields h) (put_be 4 (crc32 (header_fields h)) ++ zeros (page_size - 40)),
    length-append (put_be 4 (crc32 (header_fields h))) (zeros (page_size - 40)),
    length-put_be 4 (crc32 (header_fields h)),
    length-header_fields h,
    length-zeros (page_size - 40),
  )

  take-encode_header : (h : PagerHeader) → take 36 (encode_header crc32 h) ≡ header_fields h
  unfolding encode_header
  take-encode_header h = take-append 36 (header_fields h) _ (length-header_fields h)

  checksum-encode_header :
      (h : PagerHeader) → number_at (encode_header crc32 h) 36 4 ≡ crc32 (header_fields h)
  unfolding encode_header
  checksum-encode_header h =
      let w : List ℕ = put_be 4 (crc32 (header_fields h)) in
      ap (λ (l : List ℕ). get_be (take 4 l))
        (drop-append 36 (header_fields h) (w ++ zeros (page_size - 40)) (length-header_fields h))
      ∙ ap get_be (take-append 4 w (zeros (page_size - 40)) (length-put_be 4 _))
      ∙ get_be-put_be 4 (crc32 (header_fields h)) (omega (arith, crc.fits (header_fields h)))

  image_numbers :
      (h : PagerHeader)
      → IsHeader h
      → (number_at (encode_header crc32 h) 0 4 ≡ magic_number)
        × (number_at (encode_header crc32 h) 4 4 ≡ format_version)
        × (number_at (encode_header crc32 h) 8 4 ≡ page_size)
        × (number_at (encode_header crc32 h) 12 8 ≡ h.page_count)
        × (number_at (encode_header crc32 h) 20 8 ≡ h.free_list_head)
        × (number_at (encode_header crc32 h) 28 8 ≡ h.free_page_count)
  unfolding encode_header
  image_numbers h v =
      header_numbers h (put_be 4 (crc32 (header_fields h)) ++ zeros (page_size - 40)) v

  -- A header of this format that fits its fields decodes from its page image to itself.
  pub decode-encode_header :
      (h : PagerHeader) → IsHeader h → decode_header crc32 (encode_header crc32 h) ≡ ok h
  unfolding decode_header
  decode-encode_header h v =
      let (magic, version, size, count, head, free) = image_numbers h v in
      rw
        (
          length-encode_header h,
          checksum-encode_header h,
          take-encode_header h,
          magic,
          version,
          size,
          count,
          head,
          free,
          ==_refl,
        )
        (cc (v.magic_ok, v.version_ok, v.size_ok))
