-- ===== src/Pager/FilePager/Buffers.antt =====
-- Buffers as maps, and the writing of a whole buffer to the main file.
use plomvix.Base.{
  ℕ, ◌<◌, ◌≡◌, refl, sym, ap, ◌∙◌, false, List, [], ◌∷◌, length, ◌==◌, Option, none, some, Result,
  ok, arith, All, ==_iff, Bool-cases, inl, inr,
}
use mathlib.Core.Path.{subst}
use plomvix.Pager.{Error, body_size, IsCrc32}
use plomvix.Pager.Disk.{lookup, put, read_body_unchecked, write_pages}
use plomvix.Pager.FilePager.Reads.{lookup-put_other, write_body-read_body}

-- Each page id stands in the buffer once.
abbrev pub IsMap : List (ℕ × List ℕ) → Type 0
IsMap [] = Unit {0}
IsMap ((k, body) ∷ m) = (lookup k m ≡ none) × IsMap m

-- The writes of a transaction, one after the other, into a buffer.
abbrev pub puts : List (ℕ × List ℕ) → List (ℕ × List ℕ) → List (ℕ × List ℕ)
puts [] m = m
puts ((k, body) ∷ ws) m = puts ws (put k body m)

put-IsMap : (k : ℕ) (body : List ℕ) (m : List (ℕ × List ℕ)) → IsMap m → IsMap (put k body m)
put-IsMap k body [] h = (refl, tt)
put-IsMap k body ((j, b) ∷ m) h = elim (Bool-cases (j == k)) [
  | inl e ↦ rw e (ap (λ i. lookup i m) (sym ((==_iff j k).0 e)) ∙ h.0, h.1)
  | inr e ↦
      rw e (lookup-put_other k j body m (λ f. differ j k (sym f) e) ∙ h.0, put-IsMap k body m h.1)
]
  where
    differ : (j k : ℕ) → j ≡ k → (j == k) ≡ false → ⊥
    differ j k f e = ground arith

pub puts-IsMap : (ws m : List (ℕ × List ℕ)) → IsMap m → IsMap (puts ws m)
puts-IsMap [] m h = h
puts-IsMap ((k, body) ∷ ws) m h = puts-IsMap ws (put k body m) (put-IsMap k body m h)

-- A write that fits a file of `n` pages.
abbrev pub Fits : ℕ → ℕ × List ℕ → Type 0
Fits n w = (w.0 < n) × (length w.1 ≡ body_size)

put-Fits :
    (n k : ℕ) (body : List ℕ) (m : List (ℕ × List ℕ))
    → Fits n (k, body)
    → All (Fits n) m
    → All (Fits n) (put k body m)
put-Fits n k body [] f h = (f, tt)
put-Fits n k body ((j, b) ∷ m) f h = elim (Bool-cases (j == k)) [
  | inl e ↦ rw e (f, h.1)
  | inr e ↦ rw e (h.0, put-Fits n k body m f h.1)
]

pub puts-Fits :
    (n : ℕ) (ws m : List (ℕ × List ℕ)) → All (Fits n) ws → All (Fits n) m → All (Fits n) (puts ws m)
puts-Fits n [] m f h = h
puts-Fits n ((k, body) ∷ ws) m f h = puts-Fits n ws (put k body m) f.1 (put-Fits n k body m f.0 h)

-- What a page reads as once a buffer is written over a file.
abbrev pub over : Option (List ℕ) → Result Error (List ℕ) → Result Error (List ℕ)
over (some body) old = ok body
over none old = old

module _ (crc32 : List ℕ → ℕ) (crc : IsCrc32 crc32) where
  -- All pages of a buffer are written, whatever their order in it; other pages stay.
  pub write_pages-reads :
      (m : List (ℕ × List ℕ)) (disk : List (List ℕ))
      → IsMap m
      → All (Fits (length disk)) m
      → (file : List (List ℕ)) × (write_pages crc32 m disk ≡ (file, ok tt))
        × ((j : ℕ)
            → read_body_unchecked crc32 file j
              ≡ over (lookup j m) (read_body_unchecked crc32 disk j))
        × (length file ≡ length disk)
  unfolding write_pages
  write_pages-reads [] disk h f = (disk, refl, λ j. refl, refl)
  write_pages-reads ((k, body) ∷ m) disk h f =
      let (first, e, here, elsewhere, size) =
        write_body-read_body crc32 crc disk k body f.0.1 (omega (arith, f.0.0)) in
      let same : length first ≡ length disk = size f.0.0 in
      let (file, e_rest, reads, size_rest) =
        write_pages-reads m first h.1 (subst (λ n. All (Fits n) m) (sym same) f.1) in
      (
        file,
        rw (write_pages, e) e_rest,
        λ j. reads j ∙ (elim (Bool-cases (k == j)) [
          | inl here_is ↦ rw here_is (
              (let at : k ≡ j = (==_iff k j).0 here_is in
                ap (λ o. over o (read_body_unchecked crc32 first j))
                  (ap (λ i. lookup i m) (sym at) ∙ h.0)
                ∙ ap (read_body_unchecked crc32 first) (sym at)
                ∙ here))
          | inr apart ↦
              rw apart (ap (over (lookup j m)) (elsewhere j (λ at. ground (arith, at, apart))))
        ]),
        size_rest ∙ same,
      )
