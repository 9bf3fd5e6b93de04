-- ===== src/Lifecycle.antt =====
-- internal/lifecycle: the manager that starts components in order and stops them in reverse. The
-- mutex is left out: the calls of a manager are those of one goroutine.
pub mod Order
pub mod Runs
use plomvix.Base.{
  ℕ, ◌≡◌, Bool, true, false, List, [], ◌∷◌, ◌++◌, ◌==◌, ◌&&◌, ◌||◌, if◌then◌else◌, Option, none,
  some, Result, ok, err,
}

-- A component: its name and what its Start and Stop return, where a recovered panic is an error.
pub record Component (E : Type 0) : Type 0 where
  pub name : List ℕ
  pub start : Option E
  pub stop : Option E

pub data State : Type 0 where
  new starting started stopping stopped failed : State

pub data Error (E : Type 0) : Type 0 where
  nil_component empty_component_name already_started duplicate_component invalid_state : Error E
  start_component : List ℕ → E → Error E
  stop_components : List (List ℕ × E) → Error E

-- The calls that the manager makes of the components.
pub data Call (E : Type 0) : Type 0 where
  call_start call_stop : Component E → Call E

pub record Manager (E : Type 0) : Type 0 where
  pub components : List (Component E)
  pub component_names : List (List ℕ)
  pub started_components : List (Component E)
  pub state : State

-- NewManager
abbrev pub new_manager : (E : Type 0) → Manager E
new_manager E = record {
  components = [];
  component_names = [];
  started_components = [];
  state = new;
}

abbrev pub eq_name : List ℕ → List ℕ → Bool
eq_name [] [] = true
eq_name [] (b ∷ n) = false
eq_name (a ∷ m) [] = false
eq_name (a ∷ m) (b ∷ n) = a == b && eq_name m n

abbrev pub has_name : List ℕ → List (List ℕ) → Bool
has_name name [] = false
has_name name (n ∷ ns) = eq_name n name || has_name name ns

module _ {E : Type 0} where
  -- Register; `none` is the nil component.
  unfoldable pub register : Option (Component E) → Manager E → Manager E × Option (Error E)
  register none m = (m, some nil_component)
  register (some c) m =
      if eq_name c.name [] then (m, some empty_component_name) else (elim m.state [
        | new ↦
            (if has_name c.name m.component_names then (m, some duplicate_component) else (
              record m {
                component_names = c.name ∷ m.component_names;
                components = m.components ++ (c ∷ []);
              },
              none,
            ))
        | _ ↦ (m, some already_started)
      ])

  -- A round of the loop of Start: what it and the rounds after it start, call and return.
  abbrev pub after_start :
      Component E
      → Option E
      → List (Component E) × List (Call E) × Option (Error E)
      → List (Component E) × List (Call E) × Option (Error E)
  after_start c (some e) rest = ([], call_start c ∷ [], some (start_component c.name e))
  after_start c none (done, calls, result) = (c ∷ done, call_start c ∷ calls, result)

  -- The loop of Start: what was started, the calls, and the error that ended it.
  unfoldable pub start_loop :
      List (Component E) → List (Component E) × List (Call E) × Option (Error E)
  start_loop [] = ([], [], none)
  start_loop (c ∷ cs) = after_start c c.start (start_loop cs)

  abbrev pub end_state : Option (Error E) → State
  end_state none = started
  end_state (some e) = failed

  -- Start
  unfoldable pub start_all : Manager E → Manager E × List (Call E) × Option (Error E)
  start_all m =
      let (done, calls, result) = start_loop m.components in
      let m' = record m { started_components = m.started_components ++ done } in
      elim m.state [
        | new ↦ (record m' { state = end_state result }, calls, result)
        | _ ↦ (m, [], some already_started)
      ]

  -- The loop of Stop, from the last component to the first: the calls and the errors.
  unfoldable pub stop_loop : List (Component E) → List (Call E) × List (List ℕ × E)
  stop_loop [] = ([], [])
  stop_loop (c ∷ cs) =
      let (calls, errs) = stop_loop cs in
      (
        calls ++ (call_stop c ∷ []),
        elim c.stop [ none ↦ errs | some e ↦ errs ++ ((c.name, e) ∷ []) ],
      )

  -- errors.Join
  abbrev pub join : List (List ℕ × E) → Option (Error E)
  join [] = none
  join (e ∷ es) = some (stop_components (e ∷ es))

  unfoldable pub stop_started : Manager E → Manager E × List (Call E) × Option (Error E)
  stop_started m =
      let (calls, errs) = stop_loop m.started_components in
      (record m { state = stopped; started_components = [] }, calls, join errs)

  -- Stop
  unfoldable pub stop_all : Manager E → Manager E × List (Call E) × Option (Error E)
  stop_all m = elim m.state [
    | new ↦ (record m { state = stopped }, [], none)
    | stopped ↦ (m, [], none)
    | starting ↦ (m, [], some invalid_state)
    | stopping ↦ (m, [], some invalid_state)
    | started ↦ stop_started m
    | failed ↦ stop_started m
  ]
