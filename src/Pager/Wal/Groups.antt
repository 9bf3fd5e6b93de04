-- ===== src/Pager/Wal/Groups.antt =====
-- The records of whole transactions, one after the other, grouped again.
use plomvix.Base.{
  ℕ, ◌<◌, ◌≡◌, ◌≢◌, refl, sym, ap, ◌∙◌, Bool, true, false, List, [], ◌∷◌, ◌++◌, length, map, ◌==◌,
  arith, All, All-append, append_assoc, append-nil, ==_refl, ==_ne,
}
use mathlib.Core.Path.{subst}
use plomvix.Pager.{sentinel}
use plomvix.Pager.Wal.{WalRecord}
use plomvix.Pager.Wal.Replay.{add_record, group_records, has_eot, last_writes}
use plomvix.Pager.FilePager.Buffers.{puts}
use plomvix.Pager.Disk.{put}

-- A transaction as the log shows it: its id, its writes, and whether its end was written.
pub record Txn : Type 0 where
  pub id : ℕ
  pub writes : List (ℕ × List ℕ)
  pub committed : Bool

abbrev pub page_record : ℕ → ℕ × List ℕ → WalRecord
page_record t w = record { txn_id = t; page_id = w.0; body = w.1 }

abbrev pub end_records : ℕ → Bool → List WalRecord
end_records t true = record { txn_id = t; page_id = sentinel; body = [] } ∷ []
end_records t false = []

abbrev pub txn_records : Txn → List WalRecord
txn_records x = map (page_record x.id) x.writes ++ end_records x.id x.committed

abbrev pub all_records : List Txn → List WalRecord
all_records [] = []
all_records (x ∷ xs) = txn_records x ++ all_records xs

abbrev Groups : Type 0
Groups = List (ℕ × List WalRecord)

abbrev pub group_of : Txn → ℕ × List WalRecord
group_of x = (x.id, txn_records x)

-- No group has the id.
abbrev IsFresh : ℕ → Groups → Type 0
IsFresh t gs = All (λ g. g.0 ≢ t) gs

-- Ids stand once.
abbrev pub IsDistinct : List Txn → Type 0
IsDistinct [] = Unit {0}
IsDistinct (x ∷ xs) = All (λ (y : Txn). y.id ≢ x.id) xs × IsDistinct xs

add_record-fresh :
    (r : WalRecord) (gs : Groups)
    → IsFresh r.txn_id gs
    → add_record r gs ≡ gs ++ ((r.txn_id, r ∷ []) ∷ [])
add_record-fresh r [] f = refl
add_record-fresh r ((t, rs) ∷ gs) f =
    rw (==_ne t r.txn_id f.0) (ap (λ l. (t, rs) ∷ l) (add_record-fresh r gs f.1))

add_record-last :
    (r : WalRecord) (t : ℕ) (gs : Groups) (rs : List WalRecord)
    → r.txn_id ≡ t
    → IsFresh t gs
    → add_record r (gs ++ ((t, rs) ∷ [])) ≡ gs ++ ((t, rs ++ (r ∷ [])) ∷ [])
add_record-last r t [] rs e f = rw (e, ==_refl) refl
add_record-last r t ((u, us) ∷ gs) rs e f =
    rw (==_ne u r.txn_id (λ q. f.0 (q ∙ e)))
      (ap (λ l. (u, us) ∷ l) (add_record-last r t gs rs e f.1))

group-last :
    (new : List WalRecord) (t : ℕ) (gs : Groups) (rs : List WalRecord)
    → All (λ r. r.txn_id ≡ t) new
    → IsFresh t gs
    → group_records new (gs ++ ((t, rs) ∷ [])) ≡ gs ++ ((t, rs ++ new) ∷ [])
group-last [] t gs rs h f = ap (λ l. gs ++ ((t, l) ∷ [])) (sym (append-nil rs))
group-last (r ∷ new) t gs rs h f =
    ap (group_records new) (add_record-last r t gs rs h.0 f)
    ∙ group-last new t gs (rs ++ (r ∷ [])) h.1 f
    ∙ ap (λ l. gs ++ ((t, l) ∷ [])) (append_assoc rs (r ∷ []) new)

group-new :
    (new : List WalRecord) (t : ℕ) (gs : Groups)
    → 0 < length new
    → All (λ r. r.txn_id ≡ t) new
    → IsFresh t gs
    → group_records new gs ≡ gs ++ ((t, new) ∷ [])
group-new [] t gs n h f = absurd (omega arith)
group-new (r ∷ new) t gs n h f =
    ap (group_records new) (add_record-fresh r gs (subst (λ i. IsFresh i gs) (sym h.0) f))
    ∙ ap (λ i. group_records new (gs ++ ((i, r ∷ []) ∷ []))) h.0
    ∙ group-last new t gs (r ∷ []) h.1 f

group-append :
    (rs new : List WalRecord) (gs : Groups)
    → group_records (rs ++ new) gs ≡ group_records new (group_records rs gs)
group-append [] new gs = refl
group-append (r ∷ rs) new gs = group-append rs new (add_record r gs)

pages-Same :
    (t : ℕ) (ws : List (ℕ × List ℕ)) (c : Bool)
    → All (λ (r : WalRecord). r.txn_id ≡ t) (map (page_record t) ws ++ end_records t c)
pages-Same t [] true = (refl, tt)
pages-Same t [] false = tt
pages-Same t (w ∷ ws) c = (refl, pages-Same t ws c)

IsFresh-next :
    (x : Txn) (xs : List Txn) (gs : Groups)
    → All (λ (y : Txn). y.id ≢ x.id) xs
    → All (λ (y : Txn). IsFresh y.id gs) xs
    → All (λ (y : Txn). IsFresh y.id (gs ++ (group_of x ∷ []))) xs
IsFresh-next x [] gs d f = tt
IsFresh-next x (y ∷ ys) gs d f = (
  All-append (λ g. g.0 ≢ y.id) gs (group_of x ∷ []) f.0 (λ e. d.0 (sym e), tt),
  IsFresh-next x ys gs d.1 f.1,
)

-- The transactions, after groups of others.
group_records-after :
    (xs : List Txn) (gs : Groups)
    → IsDistinct xs
    → All (λ x. 0 < length (txn_records x)) xs
    → All (λ x. IsFresh x.id gs) xs
    → group_records (all_records xs) gs ≡ gs ++ map group_of xs
group_records-after [] gs d n f = sym (append-nil gs)
group_records-after (x ∷ xs) gs d n f =
    group-append (txn_records x) (all_records xs) gs
    ∙ ap (group_records (all_records xs))
        (group-new (txn_records x) x.id gs n.0 (pages-Same x.id x.writes x.committed) f.0)
    ∙ group_records-after xs (gs ++ (group_of x ∷ [])) d.1 n.1 (IsFresh-next x xs gs d.0 f.1)
    ∙ append_assoc gs (group_of x ∷ []) (map group_of xs)

-- The log's records of distinct transactions are grouped into these transactions.
pub group_records-all_records :
    (xs : List Txn)
    → IsDistinct xs
    → All (λ x. 0 < length (txn_records x)) xs
    → group_records (all_records xs) [] ≡ map group_of xs
group_records-all_records xs d n = group_records-after xs [] d n (unused xs)
  where
    unused : (xs : List Txn) → All (λ (x : Txn). IsFresh x.id []) xs
    unused [] = tt
    unused (x ∷ xs) = (tt, unused xs)

-- A page id that is not the marker's.
abbrev pub IsPage : ℕ × List ℕ → Type 0
IsPage w = w.0 < sentinel

not_marker : (w : ℕ × List ℕ) → IsPage w → (w.0 == sentinel) ≡ false
not_marker w h = ground (arith, h)

pub has_eot-records :
    (t : ℕ) (ws : List (ℕ × List ℕ)) (c : Bool)
    → All IsPage ws
    → has_eot (map (page_record t) ws ++ end_records t c) ≡ c
has_eot-records t [] true h = refl
has_eot-records t [] false h = refl
has_eot-records t (w ∷ ws) c h = rw (not_marker w h.0) (has_eot-records t ws c h.1)

pub last_writes-records :
    (t : ℕ) (ws : List (ℕ × List ℕ)) (c : Bool) (m : List (ℕ × List ℕ))
    → All IsPage ws
    → last_writes (map (page_record t) ws ++ end_records t c) m ≡ puts ws m
last_writes-records t [] true m h = refl
last_writes-records t [] false m h = refl
last_writes-records t (w ∷ ws) c m h =
    rw (not_marker w h.0) (last_writes-records t ws c (put w.0 w.1 m) h.1)
