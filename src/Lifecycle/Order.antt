-- ===== src/Lifecycle/Order.antt =====
-- The order in which Start and Stop call the components.
use plomvix.Base.{ℕ, ◌≡◌, refl, sym, ap, ◌∙◌, List, [], ◌∷◌, ◌++◌, map, All, Option, none, some}
use mathlib.Core.List.{reverse, reverse-cons, map-append}
use plomvix.Lifecycle.{
  Component, State, new, stopped, Error, start_component, Call, call_start, call_stop, Manager,
  after_start, end_state, start_loop, start_all, stop_loop, stop_started, stop_all, join,
}

module _ {E : Type 0} where
  -- The end of a start: all components started, or the first that fails.
  pub data IsEnd : List (Component E) → List (Call E) → Option (Error E) → Type 0 where
    all_started : IsEnd [] [] none
    one_failed :
        (c : Component E) (rest : List (Component E)) (e : E)
        → c.start ≡ some e
        → IsEnd (c ∷ rest) (call_start c ∷ []) (some (start_component c.name e))

  abbrev pub StartOk : Component E → Type 0
  StartOk c = c.start ≡ none

  -- The components split into those that started and the rest, whose first one failed.
  abbrev Split : List (Component E) → List (Component E) × List (Call E) × Option (Error E) → Type 0
  Split cs (done, calls, result) =
      (rest : List (Component E)) × (last : List (Call E)) × (cs ≡ done ++ rest)
      × All StartOk done
      × (calls ≡ map call_start done ++ last)
      × IsEnd rest last result

  extend :
      (c : Component E) (cs : List (Component E)) (o : Option E)
      (r : List (Component E) × List (Call E) × Option (Error E))
      → c.start ≡ o
      → Split cs r
      → Split (c ∷ cs) (after_start c o r)
  extend c cs (some e) r h d = (c ∷ cs, call_start c ∷ [], refl, tt, refl, one_failed c cs e h)
  extend c cs none (done, calls, result) h (rest, last, parts, good, made, end) =
      (rest, last, ap (λ l. c ∷ l) parts, (h, good), ap (λ l. call_start c ∷ l) made, end)

  start_loop-Split : (cs : List (Component E)) → Split cs (start_loop cs)
  unfolding start_loop
  start_loop-Split [] = ([], [], refl, tt, refl, all_started)
  start_loop-Split (c ∷ cs) = extend c cs c.start (start_loop cs) refl (start_loop-Split cs)

  stop_loop-calls : (cs : List (Component E)) → (stop_loop cs).0 ≡ map call_stop (reverse cs)
  unfolding stop_loop
  stop_loop-calls [] = refl
  stop_loop-calls (c ∷ cs) =
      ap (λ l. l ++ (call_stop c ∷ [])) (stop_loop-calls cs)
      ∙ sym (map-append call_stop (reverse cs) (c ∷ []))
      ∙ ap (map call_stop) (sym (reverse-cons c cs))

  -- A manager that has been given components, in some state.
  abbrev pub manager : List (Component E) → List (List ℕ) → List (Component E) → State → Manager E
  manager cs names done s = record {
    components = cs;
    component_names = names;
    started_components = done;
    state = s;
  }

  stop_ended :
      (cs done : List (Component E)) (names : List (List ℕ)) (o : Option (Error E))
      → stop_all (manager cs names done (end_state o))
        ≡ stop_started (manager cs names done (end_state o))
  unfolding stop_all
  stop_ended cs done names none = refl
  stop_ended cs done names (some e) = refl

  -- Start calls the components in order up to the first that fails; Stop then calls Stop on those
  -- that started, in reverse order, and ends in the state stopped, and a second Stop calls nothing.
  pub start_all-stop_all :
      (cs : List (Component E)) (names : List (List ℕ))
      → (done : List (Component E)) × (rest : List (Component E)) × (last : List (Call E))
        × (result : Option (Error E)) × (stops : Option (Error E)) × (cs ≡ done ++ rest)
        × All StartOk done
        × IsEnd rest last result
        × (start_all (manager cs names [] new)
            ≡ (manager cs names done (end_state result), map call_start done ++ last, result))
        × (stop_all (manager cs names done (end_state result))
            ≡ (manager cs names [] stopped, map call_stop (reverse done), stops))
        × (stop_all (manager cs names [] stopped) ≡ (manager cs names [] stopped, [], none))
  start_all-stop_all cs names =
      let (rest, last, parts, good, made, end) = start_loop-Split cs in
      let done : List (Component E) = (start_loop cs).0 in
      let result : Option (Error E) = (start_loop cs).2 in
      (
        done,
        rest,
        last,
        result,
        join ((stop_loop done).1),
        parts,
        good,
        end,
        (unfold start_all in ap (λ l. (manager cs names done (end_state result), l, result)) made),
        stop_ended cs done names result
            ∙ (unfold stop_started in
                ap (λ l. (manager cs names [] stopped, l, join ((stop_loop done).1)))
                  (stop_loop-calls done)),
        (unfold stop_all in refl),
      )
