-- ===== src/Tests/TurnRuns.antt =====
-- lib/abort.ts on concrete registries.
use operator_oss.Base.{
  ℕ, ◌+◌, ◌*◌, ◌≡◌, ◌⊎◌, refl, true, none, [], ◌∷◌, str_eq, if◌then◌else◌, arith, leb, ◌/◌,
}
use operator_oss.Maps.{get, set}
use operator_oss.Sets.{member, add}
use operator_oss.Turns.{
  Registry, empty_registry, claim_turn, begin_task_deletion, wait_for_turn_settlement,
}
use operator_oss.Turns.Invariant.{IsWellFormed}
use operator_oss.Turns.Ops.{
  claims, hands, stops, begins, ends, task_of, step, run, slot_of, slot_step,
}
use operator_oss.Turns.Slots.{step-slot_step}
use operator_oss.Turns.Deletion.{run_late, run-IsWellFormed, run-closed}
use operator_oss.Turns.Waiting.{Ends, wait_for_turn_settlement-Ends}

-- A turn of task "a" holds controller 0.
abbrev busy : Registry
busy = record { turns = ("a", 0) ∷ []; deleting = []; next = 1; aborted = [] }

abbrev closing : Registry
closing = record { turns = ("a", 0) ∷ []; deleting = "a" ∷ []; next = 1; aborted = 0 ∷ [] }

busy_reached : run (claims "a" ∷ []) empty_registry ≡ busy
unfolding run step claim_turn get set member
busy_reached = refl

closing_reached : run (begins "a" ∷ []) busy ≡ closing
unfolding run step begin_task_deletion get member add
closing_reached = refl

busy-IsWellFormed :
    IsWellFormed
      (run_late (claims "a" ∷ []) empty_registry [])
      (run (claims "a" ∷ []) empty_registry)
busy-IsWellFormed = run-IsWellFormed (claims "a" ∷ []) (tt, tt)

run-IsWellFormed_example :
    IsWellFormed
      (run_late (claims "a" ∷ begins "a" ∷ ends "a" ∷ []) empty_registry [])
      (run (claims "a" ∷ begins "a" ∷ ends "a" ∷ []) empty_registry)
run-IsWellFormed_example =
    run-IsWellFormed (claims "a" ∷ begins "a" ∷ ends "a" ∷ []) (tt, (tt, (tt, tt)))

-- A Stop of a turn whose task is being deleted.
step-slot_step_example :
    (slot_of "a" (step (stops "a") closing).0 ≡ (
      if str_eq (task_of (stops "a")) "a"
      then (slot_step (stops "a") closing.next (slot_of "a" closing)).0
      else slot_of "a" closing))
    × ((step (stops "a") closing).1
        ≡ (slot_step (stops "a") closing.next (slot_of (task_of (stops "a")) closing)).1)
step-slot_step_example = step-slot_step (stops "a") closing "a"

abbrev busy_run : Registry
busy_run = run (claims "a" ∷ []) empty_registry

-- Neither a claim nor a handoff gets a turn into a task that is being deleted.
run-closed_example :
    (member "a" (run (hands "a" 0 ∷ stops "a" ∷ claims "a" ∷ []) closing).deleting ≡ true)
    × ((get "a" (run (hands "a" 0 ∷ stops "a" ∷ claims "a" ∷ []) closing).turns ≡ none)
        ⊎ (get "a" (run (hands "a" 0 ∷ stops "a" ∷ claims "a" ∷ []) closing).turns
            ≡ get "a" closing.turns))
unfolding member
run-closed_example =
    run-closed "a" (hands "a" 0 ∷ stops "a" ∷ claims "a" ∷ []) closing (tt, (tt, (tt, tt))) refl

-- The turn unwinds between the second and the third poll.
abbrev unwinds : ℕ → Registry
unwinds i = if leb i 1 then busy else empty_registry

wait_for_turn_settlement-Ends_example :
    Ends "a"
      (λ i. 30 * i)
      unwinds
      (30 * 0 + 15000)
      (wait_for_turn_settlement "a" 15000 (λ i. 30 * i) unwinds (15000 / 25 + 2))
wait_for_turn_settlement-Ends_example =
    wait_for_turn_settlement-Ends "a" (λ i. 30 * i) unwinds (λ i. omega arith) 15000
