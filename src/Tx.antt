-- ===== src/Tx.antt =====
-- internal/engine/sql/tx: the read and write timestamps of the MVCC snapshots. The atomic counters
-- are those of one goroutine at a time: no other call falls between the steps of NextReadTx.
pub mod Runs
use plomvix.Base.{
  ℕ, zero, suc, ◌+◌, ◌-◌, ◌%◌, ◌^◌, ◌≤◌, ◌<◌, ◌≡◌, refl, ◌∙◌, true, false, ltb, leb, if◌then◌else◌,
  Option, none, some, arith, Bool-cases, inl, inr,
}

pub record Manager : Type 0 where
  pub next_read : ℕ
  pub next_write : ℕ

-- NewManager
abbrev pub new_manager : ℕ → ℕ → Manager
new_manager read_base write_base = record { next_read = read_base; next_write = write_base }

-- NextReadTx: the rounds of its loop; nothing where they are used up.
unfoldable pub next_read_tx : ℕ → Manager → Option (ℕ × Manager)
next_read_tx zero m = none
next_read_tx (suc rounds) m =
    let r = suc m.next_read % 2 ^ 64 in
    let again = next_read_tx rounds (record m { next_read = m.next_write }) in
    if leb m.next_write r then some (r, record m { next_read = r }) else again

-- NextWriteTx
abbrev pub next_write_tx : Manager → ℕ × Manager
next_write_tx m = (suc m.next_write % 2 ^ 64, record m { next_write = suc m.next_write % 2 ^ 64 })

-- CurrentReadTx and CurrentWriteTx
abbrev pub current_read_tx : Manager → ℕ
current_read_tx m = m.next_read

abbrev pub current_write_tx : Manager → ℕ
current_write_tx m = m.next_write

no_wrap : (n : ℕ) → n < 2 ^ 64 - 1 → suc n % 2 ^ 64 ≡ suc n
no_wrap n h = omega (arith, h)

-- Short of overflow, NextReadTx returns within two rounds of its loop: a timestamp that is above the
-- read counter before it and not below the write counter. It is then the read counter, and the write
-- counter stays.
pub next_read_tx-total :
    (m : Manager) (rounds : ℕ)
    → m.next_read < 2 ^ 64 - 1
    → m.next_write < 2 ^ 64 - 1
    → (r : ℕ) × (m' : Manager) × (next_read_tx (suc (suc rounds)) m ≡ some (r, m'))
      × (m.next_read < r)
      × (current_write_tx m ≤ r)
      × (current_read_tx m' ≡ r)
      × (current_write_tx m' ≡ current_write_tx m)
unfolding next_read_tx
next_read_tx-total m rounds hr hw = elim (Bool-cases (leb m.next_write (suc m.next_read))) [
  | inl e ↦ (
    suc m.next_read,
    record m { next_read = suc m.next_read },
    rw (no_wrap m.next_read hr, e) refl,
    omega arith,
    ground (arith, e),
    refl,
    refl,
  )
  | inr e ↦ (
    suc m.next_write,
    record m { next_read = suc m.next_write },
    rw (no_wrap m.next_read hr, e, no_wrap m.next_write hw, next m.next_write) refl,
    ground (arith, e),
    omega arith,
    refl,
    refl,
  )
]
  where
    next : (n : ℕ) → leb n (suc n) ≡ true
    next n = ground arith
