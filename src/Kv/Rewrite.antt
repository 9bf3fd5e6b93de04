-- ===== src/Kv/Rewrite.antt =====
-- A leaf is written in a transaction of its own: the tree routes every key as before.
use plomvix.Base.{
  ℕ, suc, ◌≤◌, ◌<◌, ◌≡◌, ◌≢◌, refl, sym, ap, ◌∙◌, Bool, true, false, ◌||◌, List, [], ◌∷◌, length,
  arith, Option, none, some, Result, ok, err, ◌==◌, leb, if◌then◌else◌, ==_refl, ==_ne,
}
use plomvix.Pager
use plomvix.Pager.{body_size, sentinel, invalid_page_id, IsCrc32}
use plomvix.Pager.Disk.{lookup, read_body_unchecked}
use plomvix.Pager.FilePager.{
  FilePager, StoreState, is_open, never_opened, is_closed, guard, check_state, validate_page_id,
  when, contains, read_page, commit_tx,
}
use plomvix.Pager.FilePager.Reads.{IsInUse}
use plomvix.Pager.FilePager.Commit.{HasRoom, transaction-commit}
use plomvix.Pager.FilePager.Extend.{body_in_file}
use plomvix.Kv.{Bytes, Error, node_type_leaf, node_type_internal}
use plomvix.Kv.Node.{first_byte}
use plomvix.Kv.Pages.{done, and_then, wrap, write, in_tx}
use plomvix.Kv.Store.{body_at, write_all, in_tx-transaction, read_page_keeps}
use plomvix.Kv.Route.{Route, at_leaf, below}
use plomvix.Kv.Search.{upper_bound}

passed :
    {A : Type 0} (o : Option Pager.Error) (p q : FilePager) (k : Pager.FilePager.Outcome A) (a : A)
    → guard o p k ≡ (q, ok a)
    → (o ≡ none) × (k ≡ (q, ok a))
passed none p q k a h = (refl, h)
passed (some e) p q k a h = cc

when-false : (b : Bool) (e : Pager.Error) → when b e ≡ none → b ≡ false
when-false true e h = cc
when-false false e h = refl

is_open_state : (s : StoreState) → check_state s ≡ none → s ≡ is_open
is_open_state is_open h = refl
is_open_state never_opened h = cc
is_open_state is_closed h = cc

in_range : (j n : ℕ) → (j == 0 || (j == 1 || leb n j)) ≡ false → (2 ≤ j) × (j < n)
in_range j n h = ground arith

module _ (crc32 : List ℕ → ℕ) where
  -- A page that reads is in use.
  pub read_page-IsInUse :
      (p : FilePager) (j : ℕ) (body : Bytes)
      → p.in_txn ≡ false
      → (read_page crc32 none p j).1 ≡ ok body
      → IsInUse p j
  unfolding read_page
  read_page-IsInUse p j body out h =
      let whole = read_page_keeps crc32 none p j ∙ ap (λ r. (p, r)) h in
      let (o, h1) = passed (check_state p.state) p p _ body whole in
      let (v, h2) = passed (validate_page_id p j) p p _ body h1 in
      let (f, h3) = passed (when (contains j p.free_set) invalid_page_id) p p _ body h2 in
      let (two, counted) = in_range j p.page_count (when-false _ invalid_page_id v) in
      let unbuffered : Pager.FilePager.Outcome (List ℕ) =
        (p, read_body_unchecked crc32 p.main_file j) in
      let h4 : unbuffered ≡ (p, ok body) =
        sym (
          ap
            (λ b.
              if b
              then (elim (lookup j p.txn_buffer) as (λ o. Pager.FilePager.Outcome (List ℕ)) [
                | some content ↦ (p, ok content)
                | none ↦ unbuffered
              ])
              else unbuffered)
            out)
        ∙ h3 in
      record {
        opened = is_open_state p.state o;
        is_data = two;
        counted = counted;
        not_free = when-false _ invalid_page_id f;
        in_file = body_in_file crc32 p.main_file j body (ap (λ x. x.1) h4);
      }

  -- What a page of the store reads as, from what the pager reads.
  pub body_at-ok :
      (p : FilePager) (j : ℕ) (body : Bytes)
      → body_at crc32 p j ≡ ok body
      → (read_page crc32 none p j).1 ≡ ok body
  body_at-ok p j body h = plain (read_page crc32 none p j) h
    where
      plain : (o : Pager.FilePager.Outcome (List ℕ)) → (wrap o).1 ≡ ok body → o.1 ≡ ok body
      plain (q, ok b) h = ap unwrapped h
        where
          unwrapped : Result Error Bytes → Result Pager.Error Bytes
          unwrapped (ok b) = ok b
          unwrapped (err e) = err Pager.closed
      plain (q, err e) h = cc

  pub ok-body_at :
      (p : FilePager) (j : ℕ) (body : Bytes)
      → (read_page crc32 none p j).1 ≡ ok body
      → body_at crc32 p j ≡ ok body
  ok-body_at p j body h = plain (read_page crc32 none p j) h
    where
      plain : (o : Pager.FilePager.Outcome (List ℕ)) → o.1 ≡ ok body → (wrap o).1 ≡ ok body
      plain (q, ok b) h = ap (λ r. (wrap (q, r)).1) h
      plain (q, err e) h = cc

-- The pages that routes and leaves are read from, before and after a page `leaf` is written.
pub record IsRewritten (crc32 : List ℕ → ℕ) (p q : FilePager) (leaf : ℕ) (body : Bytes)
    : Type 0 where
  pub outside : q.in_txn ≡ false
  pub now : body_at crc32 q leaf ≡ ok body
  pub others : (j : ℕ) (b : Bytes) → leaf ≢ j → body_at crc32 p j ≡ ok b → body_at crc32 q j ≡ ok b

module _ (crc32 : List ℕ → ℕ) (crc : IsCrc32 crc32) where
  pub one_write :
      (leaf : ℕ) (body : Bytes) (p : FilePager)
      → write_all crc32 ((leaf, body) ∷ []) p ≡ write crc32 none leaf body p
  unfolding write_all
  one_write leaf body p = ended (write crc32 none leaf body p)
    where
      ended : (o : FilePager × Result Error (Unit {0})) → and_then o (λ u. done tt) ≡ o
      ended (q, ok u) = refl
      ended (q, err e) = refl

  pub in_tx-IsRewritten :
      (p : FilePager) (leaf : ℕ) (old body : Bytes)
      → p.in_txn ≡ false
      → HasRoom p 1
      → body_at crc32 p leaf ≡ ok old
      → length body ≡ body_size
      → (q : FilePager) × (in_tx crc32 none (write crc32 none leaf body) p ≡ (q, ok tt))
        × IsRewritten crc32 p q leaf body
  in_tx-IsRewritten p leaf old body out small here size =
      let was = body_at-ok crc32 p leaf old here in
      let u : IsInUse p leaf = read_page-IsInUse crc32 p leaf old out was in
      let (q, run, outside, reads) =
        transaction-commit crc32 crc p ((leaf, body) ∷ []) u.opened out ((u, size), tt) small in
      (
        q,
        ap (λ m. in_tx crc32 none m p) (λ i pg. sym (one_write leaf body pg) i)
            ∙ in_tx-transaction crc32 ((leaf, body) ∷ []) p q run,
        record {
          outside = outside;
          now = ok-body_at crc32 q leaf body (reads leaf u ∙ rw (==_refl leaf) refl);
          others = λ j b ne h.
              let before = body_at-ok crc32 p j b h in
              ok-body_at crc32 q j b (
                reads j (read_page-IsInUse crc32 p j b out before) ∙ (rw (==_ne leaf j ne) before));
        },
      )

module _ (crc32 : List ℕ → ℕ) (p q : FilePager) (leaf : ℕ) (old body : Bytes)
    (w : IsRewritten crc32 p q leaf body) (here : body_at crc32 p leaf ≡ ok old)
    (old_leaf : first_byte old ≡ node_type_leaf) (new_leaf : first_byte body ≡ node_type_leaf) where
  -- An internal node is not the leaf.
  inner_apart :
      (j : ℕ) (b : Bytes) → body_at crc32 p j ≡ ok b → first_byte b ≡ node_type_internal → leaf ≢ j
  inner_apart j b h t e =
      omega (arith, sym old_leaf ∙ ap byte_of (sym here ∙ ap (body_at crc32 p) e ∙ h) ∙ t)
    where
      byte_of : Result Error Bytes → ℕ
      byte_of (ok x) = first_byte x
      byte_of (err x) = 0

  pub Route-rewritten :
      (k : Bytes) (n page_id : ℕ)
      → Route crc32 p k leaf old n page_id
      → Route crc32 q k leaf body n page_id
  Route-rewritten k n page_id (at_leaf _ h t) = at_leaf n w.now new_leaf
  Route-rewritten k (suc n) page_id (below _ _ inner first entries h t d r) =
      below n page_id inner first entries (w.others page_id inner (inner_apart page_id inner h t) h)
        t d (Route-rewritten k n (upper_bound first entries k) r)

  pub Route-other :
      (k : Bytes) (other : ℕ) (b : Bytes)
      → leaf ≢ other
      → (n page_id : ℕ) → Route crc32 p k other b n page_id
      → Route crc32 q k other b n page_id
  Route-other k other b ne n page_id (at_leaf _ h t) = at_leaf n (w.others other b ne h) t
  Route-other k other b ne (suc n) page_id (below _ _ inner first entries h t d r) =
      below n page_id inner first entries (w.others page_id inner (inner_apart page_id inner h t) h)
        t d (Route-other k other b ne n (upper_bound first entries k) r)
