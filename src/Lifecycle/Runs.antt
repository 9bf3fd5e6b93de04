-- ===== src/Lifecycle/Runs.antt =====
-- Three components, the last of which does not start.
use plomvix.Base.{ℕ, ◌≡◌, List, [], ◌∷◌, ◌++◌, map, All, Option, none, some}
use mathlib.Core.List.{reverse}
use plomvix.Lifecycle.{
  Component, new, stopped, Error, Call, call_start, call_stop, end_state, start_all, stop_all,
}
use plomvix.Lifecycle.Order.{StartOk, IsEnd, manager, start_all-stop_all}

abbrev component : ℕ → Option ℕ → Component ℕ
component name start = record { name = name ∷ []; start = start; stop = some 5 }

abbrev three : List (Component ℕ)
three = component b'a' none ∷ component b'b' none ∷ component b'c' (some 9) ∷ []

start_all-stop_all_example :
    (done : List (Component ℕ)) × (rest : List (Component ℕ)) × (last : List (Call ℕ))
    × (result : Option (Error ℕ)) × (stops : Option (Error ℕ)) × (three ≡ done ++ rest)
    × All StartOk done
    × IsEnd rest last result
    × (start_all (manager three [] [] new)
        ≡ (manager three [] done (end_state result), map call_start done ++ last, result))
    × (stop_all (manager three [] done (end_state result))
        ≡ (manager three [] [] stopped, map call_stop (reverse done), stops))
    × (stop_all (manager three [] [] stopped) ≡ (manager three [] [] stopped, [], none))
start_all-stop_all_example = start_all-stop_all three []
