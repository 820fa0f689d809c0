-- ===== src/Turns/Deletion.antt =====
-- lib/abort.ts and the DELETE handler of app/api/tasks/[id]/route.ts: between beginTaskDeletion and
-- endTaskDeletion no turn of the task can start.
use operator_oss.Base.{
  ℕ, ◌≡◌, ◌⊎◌, inr, refl, true, false, none, List, [], ◌∷◌, String, str_eq, eq_iff, arith, mem, All,
  ◌↔◌,
}
use operator_oss.Maps.{get, get-set, get-delete}
use operator_oss.Sets.{member, member-add, member-remove}
use operator_oss.Turns.{
  Registry, claim_turn, handoff_turn, register_turn, unregister_turn, abort_turn,
  begin_task_deletion, end_task_deletion, empty_registry, is_task_deleting, owns_turn,
}
use operator_oss.Turns.Invariant.{
  IsWellFormed, late_after, claim_turn-IsWellFormed, handoff_turn-IsWellFormed,
  unregister_turn-IsWellFormed, abort_turn-IsWellFormed, begin_task_deletion-IsWellFormed,
  end_task_deletion-IsWellFormed,
}
use operator_oss.Turns.Ops.{Op, claims, hands, registers, releases, stops, begins, ends, step, run}

-- The calls that the server makes: `registerTurn` is for tests.
abbrev pub IsAllowed : Op → Registry → Type 0
IsAllowed (registers id c) s = ⊥
IsAllowed _ s = Unit

abbrev pub AreAllowed : List Op → Registry → Type 0
AreAllowed [] s = Unit
AreAllowed (op ∷ ops) s = IsAllowed op s × AreAllowed ops (step op s).0

-- The tasks whose deletion was ended while their turn was still registered, as a DELETE does when the
-- wait for the turn times out.
unfoldable pub step_late : Op → Registry → List String → List String
unfolding late_after
step_late (ends id) s late = late_after id s late
step_late _ s late = late

unfoldable pub run_late : List Op → Registry → List String → List String
unfolding step_late
run_late [] s late = late
run_late (op ∷ ops) s late = run_late ops (step op s).0 (step_late op s late)

pub step-IsWellFormed :
    (op : Op) (late : List String) (s : Registry)
    → IsAllowed op s
    → IsWellFormed late s
    → IsWellFormed (step_late op s late) (step op s).0
unfolding step step_late
step-IsWellFormed (claims id) late s a v = claim_turn-IsWellFormed id late s v
step-IsWellFormed (hands id prev) late s a v = handoff_turn-IsWellFormed id prev late s v
step-IsWellFormed (registers id c) late s a v = absurd a
step-IsWellFormed (releases id c) late s a v = unregister_turn-IsWellFormed id c late s v
step-IsWellFormed (stops id) late s a v = abort_turn-IsWellFormed id late s v
step-IsWellFormed (begins id) late s a v = begin_task_deletion-IsWellFormed id late s v
step-IsWellFormed (ends id) late s a v = end_task_deletion-IsWellFormed id late s v

run_from-IsWellFormed :
    (ops : List Op) (late : List String) (s : Registry)
    → AreAllowed ops s
    → IsWellFormed late s
    → IsWellFormed (run_late ops s late) (run ops s)
unfolding run run_late
run_from-IsWellFormed [] late s a v = v
run_from-IsWellFormed (op ∷ ops) late s a v =
    run_from-IsWellFormed ops (step_late op s late) (step op s).0 a.1
      (step-IsWellFormed op late s a.0 v)

-- After any sequence of the server's calls from an empty registry: every registered controller was
-- created here and is registered for one task only, and one that was tripped is registered only
-- while its task is being deleted, or for a task whose deletion was once ended with its turn still
-- registered.
pub run-IsWellFormed :
    (ops : List Op)
    → AreAllowed ops empty_registry
    → IsWellFormed (run_late ops empty_registry []) (run ops empty_registry)
unfolding get
run-IsWellFormed ops a = run_from-IsWellFormed ops [] empty_registry a (record {
  allocated = λ i c e. ground arith;
  unshared = λ i j c e f. ground arith;
  tripped = λ c e. ground arith;
  stopped = λ i c e f. ground arith;
})

-- Neither the end of the task's deletion nor the tests' registration of a turn for it.
abbrev pub KeepsClosed : String → Op → Type 0
KeepsClosed i (registers id c) = str_eq id i ≡ false
KeepsClosed i (ends id) = str_eq id i ≡ false
KeepsClosed i _ = Unit

step-closed :
    (i : String) (op : Op) (s : Registry)
    → KeepsClosed i op
    → member i s.deleting ≡ true
    → (member i (step op s).0.deleting ≡ true)
      × ((get i (step op s).0.turns ≡ none) ⊎ (get i (step op s).0.turns ≡ get i s.turns))
unfolding step claim_turn handoff_turn register_turn unregister_turn abort_turn begin_task_deletion
    end_task_deletion
step-closed i (claims id) s k h = ground (arith, get-set id i s.next s.turns, eq_iff id i)
step-closed i (hands id prev) s k h = ground (arith, get-set id i s.next s.turns, eq_iff id i)
step-closed i (registers id c) s k h = ground (arith, get-set id i c s.turns, eq_iff id i)
step-closed i (releases id c) s k h = ground (arith, get-delete id i s.turns, eq_iff id i)
step-closed i (stops id) s k h = ground (arith, get-delete id i s.turns, eq_iff id i)
step-closed i (begins id) s k h = ground (arith, member-add id i s.deleting, eq_iff id i)
step-closed i (ends id) s k h = ground (arith, member-remove id i s.deleting, eq_iff id i)

-- While a task is being deleted no call gives its slot a new holder: after any calls but the end of
-- that deletion the slot is free or held by whoever held it before.
pub run-closed :
    (i : String) (ops : List Op) (s : Registry)
    → All (KeepsClosed i) ops
    → member i s.deleting ≡ true
    → (member i (run ops s).deleting ≡ true)
      × ((get i (run ops s).turns ≡ none) ⊎ (get i (run ops s).turns ≡ get i s.turns))
unfolding run
run-closed i [] s k h = (h, inr refl)
run-closed i (op ∷ ops) s k h =
    ground (arith, step-closed i op s k.0 h, run-closed i ops (step op s).0 k.1)

-- `beginTaskDeletion` closes the task, keeps every slot as it is, trips the controller that held the
-- task's slot and no other, and a second call reports that the deletion is under way.
pub begin_task_deletion_closes :
    (i : String) (s : Registry) (c : ℕ)
    → (is_task_deleting i (begin_task_deletion i s).0 ≡ true)
      × ((begin_task_deletion i s).0.turns ≡ s.turns)
      × ((begin_task_deletion i (begin_task_deletion i s).0).1 ≡ false)
      × ((mem c (begin_task_deletion i s).0.aborted ≡ true) ↔ (
          (mem c s.aborted ≡ true) ⊎ ((is_task_deleting i s ≡ false) × (owns_turn i c s ≡ true))))
unfolding begin_task_deletion is_task_deleting owns_turn
begin_task_deletion_closes i s c = (
  ground (arith, member-add i i s.deleting, eq_iff i i),
  ground arith,
  ground (arith, member-add i i s.deleting, eq_iff i i),
  (λ h. ground arith, λ h. ground arith),
)
