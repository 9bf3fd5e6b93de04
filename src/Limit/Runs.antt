-- ===== src/Limit/Runs.antt =====
-- Rows 10 to 14 from the second on.
use plomvix.Base.{ℕ, ◌≡◌, List, [], ◌∷◌, take, drop}
use plomvix.Limit.{open_node, drain, drain-open_node}

abbrev five_rows : List ℕ
five_rows = 10 ∷ 11 ∷ 12 ∷ 13 ∷ 14 ∷ []

drain-open_node_example :
    (drain 6 (open_node 0 1 five_rows) ≡ drop 1 five_rows)
    × (drain 6 (open_node 2 1 five_rows) ≡ take 2 (drop 1 five_rows))
drain-open_node_example = drain-open_node 1 1 five_rows
