-- ===== src/Heap/Rows.antt =====
-- table.go: the rows that a scan gives, one after the other.
use plomvix.Base.{
  ℕ, zero, suc, ◌+◌, ◌≤◌, ◌≡◌, refl, sym, ap, ◌∙◌, Bool, true, false, List, [], ◌∷◌, length, drop,
  get_elem?, arith, Option, none, some, if◌then◌else◌,
}

-- enterpriseRows, over the values of its rows; `curVals` is none before the first.
pub record EnterpriseRows (V : Type 0) : Type 0 where
  pub rows : List V
  pub idx : ℕ
  pub cur_vals : Option V

module _ {V : Type 0} where
  -- The rows that Scan returns.
  abbrev pub open_rows : List V → EnterpriseRows V
  open_rows vis_rows = record { rows = vis_rows; idx = 0; cur_vals = none }

  -- What Next makes of the row at the next index.
  abbrev pub moved : EnterpriseRows V → Option V → EnterpriseRows V × Bool
  moved r none = (record r { idx = suc r.idx }, false)
  moved r (some vals) = (record r { idx = suc r.idx; cur_vals = some vals }, true)

  -- Next
  unfoldable pub next : EnterpriseRows V → EnterpriseRows V × Bool
  next r = moved r (get_elem? r.rows (suc r.idx))

  -- A client's loop, at most `n` rounds: the values after each Next that gives one.
  unfoldable pub drain : ℕ → EnterpriseRows V → List (Option V)
  drain zero r = []
  drain (suc n) r =
      let (q, more) = next r in let rest = drain n q in if more then q.cur_vals ∷ rest else []

  -- Values, each as the current one of an iterator.
  abbrev pub somes : List V → List (Option V)
  somes [] = []
  somes (x ∷ xs) = some x ∷ somes xs

  drop-none : (xs : List V) (i : ℕ) → get_elem? xs i ≡ none → drop i xs ≡ []
  drop-none [] zero h = refl
  drop-none [] (suc i) h = refl
  drop-none (x ∷ xs) zero h = cc
  drop-none (x ∷ xs) (suc i) h = drop-none xs i h

  drop-some :
      (xs : List V) (i : ℕ) (x : V) → get_elem? xs i ≡ some x → drop i xs ≡ x ∷ drop (suc i) xs
  drop-some [] zero x h = cc
  drop-some [] (suc i) x h = cc
  drop-some (y ∷ xs) zero x h = ap (λ z. z ∷ xs) (ap (value y) h)
    where
      value : V → Option V → V
      value d (some z) = z
      value d none = d
  drop-some (y ∷ xs) (suc i) x h = drop-some xs i x h

  drop-past : (xs : List V) (i : ℕ) → length xs ≤ i → drop (suc i) xs ≡ []
  drop-past [] i h = refl
  drop-past (x ∷ xs) zero h = absurd (omega (arith, h))
  drop-past (x ∷ xs) (suc i) h = drop-past xs i (omega (arith, h))

  drain-drop :
      (n i : ℕ) (rows : List V) (cur : Option V)
      → length rows ≤ n + i
      → drain n (record { rows = rows; idx = i; cur_vals = cur }) ≡ somes (drop (suc i) rows)
  unfolding drain next
  drain-drop zero i rows cur h = ap somes (sym (drop-past rows i (omega (arith, h))))
  drain-drop (suc n) i rows cur h =
      step (get_elem? rows (suc i)) refl
        (λ x. drain-drop n (suc i) rows (some x) (omega (arith, h)))
    where
      step :
          (o : Option V)
          → get_elem? rows (suc i) ≡ o
          → ((x : V)
              → drain n (record { rows = rows; idx = suc i; cur_vals = some x })
                ≡ somes (drop (suc (suc i)) rows))
          → (let (q, more) = moved (record { rows = rows; idx = i; cur_vals = cur }) o in
              if more then q.cur_vals ∷ drain n q else [])
            ≡ somes (drop (suc i) rows)
      step none e rest = ap somes (sym (drop-none rows (suc i) e))
      step (some x) e rest =
          ap (λ l. some x ∷ l) (rest x) ∙ ap somes (sym (drop-some rows (suc i) x e))

  -- The loop over the rows of a scan, Next before each, gives all of them in order but the first, in as many
  -- rounds as there are rows.
  pub drain-open_rows :
      (vis_rows : List V) → drain (length vis_rows) (open_rows vis_rows) ≡ somes (drop 1 vis_rows)
  drain-open_rows vis_rows = drain-drop (length vis_rows) 0 vis_rows none (omega arith)
