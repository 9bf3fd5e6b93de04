-- ===== src/Tx/Runs.antt =====
-- A read timestamp after the write counter has passed the read counter.
use plomvix.Base.{ℕ, ◌≤◌, ◌<◌, ◌≡◌, some, arith}
use plomvix.Tx.{
  Manager, new_manager, next_read_tx, current_read_tx, current_write_tx, next_read_tx-total,
}

next_read_tx-total_example :
    (r : ℕ) × (m' : Manager) × (next_read_tx 2 (new_manager 3 10) ≡ some (r, m'))
    × (3 < r)
    × (10 ≤ r)
    × (current_read_tx m' ≡ r)
    × (current_write_tx m' ≡ 10)
next_read_tx-total_example = next_read_tx-total (new_manager 3 10) 0 (omega arith) (omega arith)
