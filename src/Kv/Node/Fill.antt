-- ===== src/Kv/Node/Fill.antt =====
-- The layout of a region that bytes are copied into.
use plomvix.Base.{
  ℕ, ◌-◌, ◌≤◌, ◌≡◌, refl, ap, ◌∙◌, ◌++◌, arith, append_assoc, length, take, drop, length-append,
  length-take, take-append, drop-append, take-length,
}
use plomvix.Pager.Page.{zeros, length-zeros}
use plomvix.Kv.{Bytes}
use plomvix.Kv.Node.{fill}

pub length-fill : (n : ℕ) (bs : Bytes) → length (fill n bs) ≡ n
unfolding fill
length-fill n bs = omega (
  arith,
  length-append (take n bs) (zeros (n - length bs)),
  length-take n bs,
  length-zeros (n - length bs),
)

-- Bytes that fit stand in front of the zeros.
pub fill_fits : (n : ℕ) (bs : Bytes) → length bs ≤ n → fill n bs ≡ bs ++ zeros (n - length bs)
unfolding fill
fill_fits n bs h = ap (λ l. l ++ zeros (n - length bs)) (take-length n bs h)

pub take-fill :
    (n : ℕ) (bs rest : Bytes) → length bs ≤ n → take (length bs) (fill n bs ++ rest) ≡ bs
take-fill n bs rest h =
    ap (λ l. take (length bs) (l ++ rest)) (fill_fits n bs h)
    ∙ ap (take (length bs)) (append_assoc bs (zeros (n - length bs)) rest)
    ∙ take-append (length bs) bs (zeros (n - length bs) ++ rest) refl

-- The bytes between two cuts.
pub window :
    (off n : ℕ) (front mid rest : Bytes)
    → length front ≡ off
    → length mid ≡ n
    → take n (drop off (front ++ (mid ++ rest))) ≡ mid
window off n front mid rest f m =
    ap (take n) (drop-append off front (mid ++ rest) f) ∙ take-append n mid rest m
