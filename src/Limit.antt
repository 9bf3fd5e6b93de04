-- ===== src/Limit.antt =====
-- internal/engine/sql/planner/limit.go: LIMIT and OFFSET over a child operator, which stands here as
-- the rows that it still gives before io.EOF. A limit and an offset are not negative.
pub mod Runs
use plomvix.Base.{
  ℕ, zero, suc, ◌+◌, ◌-◌, ◌≤◌, ◌<◌, ◌≡◌, refl, sym, ap, ◌∙◌, Bool, true, false, ◌&&◌, List, [], ◌∷◌,
  length, take, drop, ltb, leb, ◌==◌, if◌then◌else◌, Option, none, some, arith, Bool-cases, inl,
  inr, ◌⊎◌, length-drop,
}

pub record LimitNode (A : Type 0) : Type 0 where
  pub child : List A
  pub limit : ℕ
  pub offset : ℕ
  pub skipped : ℕ
  pub emitted : ℕ

skipped_all : (s o : ℕ) → o ≤ s → ltb s o ≡ false
skipped_all s o h = ground arith

module _ {A : Type 0} where
  -- Open
  abbrev pub open_node : ℕ → ℕ → List A → LimitNode A
  open_node limit offset rows = record {
    child = rows;
    limit = limit;
    offset = offset;
    skipped = 0;
    emitted = 0;
  }

  -- The loop of Next over the child's rows; no row is io.EOF.
  unfoldable pub next_loop : ℕ → ℕ → ℕ → ℕ → List A → Option A × LimitNode A
  next_loop limit offset skipped emitted [] = (
    none,
    record { child = []; limit = limit; offset = offset; skipped = skipped; emitted = emitted },
  )
  next_loop limit offset skipped emitted (row ∷ rows) =
      let again = next_loop limit offset (suc skipped) emitted rows in
      let after : LimitNode A = record {
        child = rows;
        limit = limit;
        offset = offset;
        skipped = skipped;
        emitted = suc emitted;
      } in
      if ltb skipped offset
      then again
      else (if ltb 0 limit && ltb limit (suc emitted) then (none, after) else (some row, after))

  -- Next
  abbrev pub next : LimitNode A → Option A × LimitNode A
  next n = next_loop n.limit n.offset n.skipped n.emitted n.child

  -- The caller's calls of Next, up to io.EOF or to a number of them.
  unfoldable pub drain : ℕ → LimitNode A → List A
  drain zero n = []
  drain (suc calls) n =
      let rest = drain calls ((next n).1) in elim ((next n).0) [ some row ↦ row ∷ rest | none ↦ [] ]

  abbrev node : ℕ → ℕ → ℕ → ℕ → List A → LimitNode A
  node limit offset skipped emitted rows = record {
    child = rows;
    limit = limit;
    offset = offset;
    skipped = skipped;
    emitted = emitted;
  }

  -- What the caller makes of a call of Next.
  abbrev after_next : ℕ → Option A × LimitNode A → List A
  after_next calls (some row, m) = row ∷ drain calls m
  after_next calls (none, m) = []

  drain-next : (calls : ℕ) (n : LimitNode A) → drain (suc calls) n ≡ after_next calls (next n)
  unfolding drain
  drain-next calls n = cases (next n)
    where
      cases :
          (x : Option A × LimitNode A)
          → (elim (x.0) as (λ y. List A) [ some row ↦ row ∷ drain calls (x.1) | none ↦ [] ])
            ≡ after_next calls x
      cases (some row, m) = refl
      cases (none, m) = refl

  next-given :
      (limit offset skipped emitted : ℕ) (row : A) (rows : List A)
      → offset ≤ skipped
      → (ltb 0 limit && ltb limit (suc emitted)) ≡ false
      → next (node limit offset skipped emitted (row ∷ rows))
        ≡ (some row, node limit offset skipped (suc emitted) rows)
  unfolding next_loop
  next-given l o s e row rows h b = rw (skipped_all s o h, b) refl

  next-full :
      (limit offset skipped emitted : ℕ) (row : A) (rows : List A)
      → offset ≤ skipped
      → (ltb 0 limit && ltb limit (suc emitted)) ≡ true
      → next (node limit offset skipped emitted (row ∷ rows))
        ≡ (none, node limit offset skipped (suc emitted) rows)
  unfolding next_loop
  next-full l o s e row rows h b = rw (skipped_all s o h, b) refl

  next-skipped :
      (limit offset skipped emitted : ℕ) (row : A) (rows : List A)
      → ltb skipped offset ≡ true
      → next (node limit offset skipped emitted (row ∷ rows))
        ≡ next (node limit offset (suc skipped) emitted rows)
  unfolding next_loop
  next-skipped l o s e row rows h = rw h refl

  -- Once the offset is skipped: without a limit, and with `left` rows of it to go.
  unlimited :
      (calls offset skipped emitted : ℕ) (rows : List A)
      → offset ≤ skipped
      → length rows < calls
      → drain calls (node 0 offset skipped emitted rows) ≡ rows
  unfolding next_loop
  unlimited zero o s e rows h c = absurd (omega arith)
  unlimited (suc calls) o s e [] h c = drain-next calls _
  unlimited (suc calls) o s e (row ∷ rows) h c =
      drain-next calls _
      ∙ ap (after_next calls) (next-given 0 o s e row rows h refl)
      ∙ ap (λ l. row ∷ l) (unlimited calls o s (suc e) rows h (omega arith))

  limited :
      (calls left offset skipped emitted limit : ℕ) (rows : List A)
      → offset ≤ skipped
      → limit ≡ emitted + left
      → 0 < limit
      → length rows < calls
      → drain calls (node limit offset skipped emitted rows) ≡ take left rows
  unfolding next_loop
  limited zero left o s e l rows h q pos c = absurd (omega arith)
  limited (suc calls) zero o s e l [] h q pos c = drain-next calls _
  limited (suc calls) (suc left) o s e l [] h q pos c = drain-next calls _
  limited (suc calls) zero o s e l (row ∷ rows) h q pos c =
      drain-next calls _ ∙ ap (after_next calls) (next-full l o s e row rows h (full l e pos q))
    where
      full : (l e : ℕ) → 0 < l → l ≡ e + 0 → (ltb 0 l && ltb l (suc e)) ≡ true
      full l e pos q = ground arith
  limited (suc calls) (suc left) o s e l (row ∷ rows) h q pos c =
      drain-next calls _
      ∙ ap (after_next calls) (next-given l o s e row rows h (room l e left q))
      ∙ ap (λ r. row ∷ r)
          (limited calls left o s (suc e) l rows h (omega (arith, q)) pos (omega arith))
    where
      room : (l e left : ℕ) → l ≡ e + suc left → (ltb 0 l && ltb l (suc e)) ≡ false
      room l e left q = ground arith

  -- The rows of the offset are passed over.
  skipping :
      (calls k limit offset skipped : ℕ) (rows : List A)
      → offset ≡ skipped + k
      → drain (suc calls) (node limit offset skipped 0 rows)
        ≡ drain (suc calls) (node limit offset offset 0 (drop k rows))
  unfolding next_loop
  skipping calls zero l o s rows h =
      ap (λ i. drain (suc calls) (node l o i 0 rows)) (omega (arith, h))
  skipping calls (suc k) l o s [] h = drain-next calls _ ∙ sym (drain-next calls _)
  skipping calls (suc k) l o s (row ∷ rows) h =
      drain-next calls _
      ∙ ap (after_next calls) (next-skipped l o s 0 row rows (more s k o h))
      ∙ sym (drain-next calls _)
      ∙ skipping calls k l o (suc s) rows (omega (arith, h))
    where
      more : (s k o : ℕ) → o ≡ s + suc k → ltb s o ≡ true
      more s k o h = ground arith

  -- Called until it gives no row, a node without a limit gives the rows behind the offset, and one
  -- with a limit the first of these, up to the limit.
  pub drain-open_node :
      (limit offset : ℕ) (rows : List A)
      → (drain (suc (length rows)) (open_node 0 offset rows) ≡ drop offset rows)
        × (drain (suc (length rows)) (open_node (suc limit) offset rows)
            ≡ take (suc limit) (drop offset rows))
  drain-open_node limit offset rows = (
    skipping (length rows) offset 0 offset 0 rows (omega arith)
        ∙ unlimited (suc (length rows)) offset offset 0 (drop offset rows) (omega arith)
            (omega (arith, length-drop offset rows)),
    skipping (length rows) offset (suc limit) offset 0 rows (omega arith)
        ∙ limited (suc (length rows)) (suc limit) offset offset 0 (suc limit) (drop offset rows)
            (omega arith) (omega arith) (omega arith) (omega (arith, length-drop offset rows)),
  )
