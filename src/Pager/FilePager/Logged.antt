-- ===== src/Pager/FilePager/Logged.antt =====
-- What the log holds when a transaction commits, and the checkpoint of a log of one transaction.
use plomvix.Base.{
  ℕ, ◌+◌, ◌≤◌, ◌<◌, ◌≡◌, refl, sym, ap, ◌∙◌, true, false, List, [], ◌∷◌, ◌++◌, length, take, drop,
  map, ◌==◌, if_false, if◌then◌else◌, Option, none, some, Result, ok, err, arith, All, append_assoc,
  append-nil, length-append, take-append, ==_ne,
}
use mathlib.Core.Path.{subst}
use plomvix.Base.Bytes.{put_be}
use plomvix.Base.Int.{IsU64}
use plomvix.Pager.{Error, sentinel, IsCrc32}
use plomvix.Pager.Disk.{lookup, read_body_unchecked}
use plomvix.Pager.Wal.{WalRecord, encode_wal_record, encode_eot_marker}
use plomvix.Pager.Wal.Parse.{log_of, IsTorn}
use plomvix.Pager.Wal.Replay.{replay_wal}
use plomvix.Pager.Wal.Groups.{Txn, page_record, end_records, txn_records, all_records}
use plomvix.Pager.Wal.Committed.{replay_wal-committed}
use plomvix.Pager.FilePager.{FilePager, write_log, checkpoint}
use plomvix.Pager.FilePager.Buffers.{puts, Fits, over}

-- The log is these bytes, with what a shorter log left behind them.
abbrev pub IsLogged : List ℕ → List ℕ → ℕ → Type 0
IsLogged l wal size = (length l ≡ size) × (tail : List ℕ) × (wal ≡ l ++ tail)

pub write_log-IsLogged :
    (l wal bs : List ℕ) (size : ℕ)
    → IsLogged l wal size
    → IsLogged (l ++ bs) (write_log size bs wal) (size + length bs)
write_log-IsLogged l wal bs size (n, tail, e) =
    let rest : List ℕ = drop (size + length bs) wal in
    (
      omega (arith, n, length-append l bs),
      rest,
      ap (λ f. f ++ (bs ++ rest)) (ap (take size) e ∙ take-append size l tail n)
          ∙ sym (append_assoc l bs rest),
    )

abbrev pub transaction_of : ℕ → List (ℕ × List ℕ) → Txn
transaction_of t ws = record { id = t; writes = ws; committed = true }

-- What a page reads as when a buffer is written over it once more.
pub over-again :
    (l : Option (List ℕ)) (old : Result Error (List ℕ)) → over l (over l old) ≡ over l old
over-again none old = refl
over-again (some b) old = refl

module _ (crc32 : List ℕ → ℕ) where
  pub length-eot : (t : ℕ) → length (encode_eot_marker crc32 t) ≡ 24
  unfolding encode_eot_marker put_be
  length-eot t = refl

  -- The records that the writes of a transaction append.
  abbrev pub images : ℕ → List (ℕ × List ℕ) → List ℕ
  images t [] = []
  images t ((k, body) ∷ ws) = encode_wal_record crc32 t k body ++ images t ws

module _ (crc32 : List ℕ → ℕ) (crc : IsCrc32 crc32) (t n : ℕ) (few : n ≤ sentinel) where
  images-log_of :
      (ws : List (ℕ × List ℕ))
      → All (Fits n) ws
      → images crc32 t ws ++ encode_eot_marker crc32 t
        ≡ log_of crc32 crc (txn_records (transaction_of t ws))
  images-log_of [] h = sym (append-nil (encode_eot_marker crc32 t))
  images-log_of ((k, body) ∷ ws) h =
      let page : List ℕ = encode_wal_record crc32 t k body in
      append_assoc page (images crc32 t ws) (encode_eot_marker crc32 t)
      ∙ ap (λ l. page ++ l) (images-log_of ws h.1)
      ∙ ap (λ b. (if b then encode_eot_marker crc32 t else page) ++ rest) (sym not_end)
    where
      rest : List ℕ
      rest = log_of crc32 crc (txn_records (transaction_of t ws))

      not_end : (k == sentinel) ≡ false
      not_end = ==_ne k sentinel (λ e. omega (arith, e, few, h.0.0))

  -- The checkpoint of a log that is one committed transaction writes its pages and empties the log.
  pub checkpoint-transaction :
      (p : FilePager) (ws : List (ℕ × List ℕ))
      → IsU64 t
      → length p.main_file ≡ n
      → All (Fits n) ws
      → 0 < p.wal_size
      → IsLogged (images crc32 t ws ++ encode_eot_marker crc32 t) p.wal_file p.wal_size
      → (after : List (List ℕ)) × (checkpoint crc32 p
          ≡ (record p { main_file = after; wal_file = []; wal_size = 0 }, ok tt))
        × ((j : ℕ)
            → read_body_unchecked crc32 after j
              ≡ over (lookup j (puts ws [])) (read_body_unchecked crc32 p.main_file j))
        × (length after ≡ length p.main_file)
  unfolding checkpoint
  checkpoint-transaction p ws u whole fits some_log (size, tail, e) =
      let x : Txn = transaction_of t ws in
      let (after, done, reads, same) =
        replay_wal-committed crc32 crc (x ∷ []) p.main_file [] (tt, tt) (omega (arith, whole, few))
          (
            record {
              id_fits = u;
              left_record =
                  omega (arith, length-append (map (page_record t) ws) (end_records t true));
              fits = subst (λ m. All (Fits m) ws) (sym whole) fits;
            },
            tt,
          )
          nothing_torn in
      (
        after,
        if_false _ _ _ (==_ne p.wal_size 0 (λ z. omega (arith, z, some_log)))
            ∙ ap settled (
                ap (replay_wal crc32 p.main_file) (
                  ap (take p.wal_size) e
                  ∙ take-append p.wal_size (images crc32 t ws ++ encode_eot_marker crc32 t) tail
                      size
                  ∙ images-log_of ws fits
                  ∙ ap (log_of crc32 crc) (sym (append-nil (txn_records x)))
                  ∙ sym (append-nil (log_of crc32 crc (all_records (x ∷ [])))))
                ∙ done),
        reads,
        same,
      )
    where
      settled :
          List (List ℕ) × List ℕ × Result Error (Unit {0}) → FilePager × Result Error (Unit {0})
      settled r = elim (r.2) [
        | err e ↦ (record p { main_file = r.0 }, err e)
        | ok u ↦ (record p { main_file = r.0; wal_file = []; wal_size = 0 }, ok tt)
      ]

      nothing_torn : IsTorn crc32 crc []
      nothing_torn =
          let marker : WalRecord = record { txn_id = t; page_id = sentinel; body = [] } in
          (
            marker,
            encode_eot_marker crc32 t,
            record { txn_fits = u; page_fits = omega arith; size_ok = refl },
            refl,
            omega (arith, length-eot crc32 t),
          )
