-- ===== src/Turns/Slots.antt =====
-- lib/abort.ts: the registry refines a family of independent slots, one for each task.
use operator_oss.Base.{
  List, ℕ, ◌≡◌, ◌≢◌, ◌↔◌, ◌⊎◌, true, false, none, some, String, str_eq, eq_iff, arith,
  if◌then◌else◌, mem, Bool-cases, Option-cases, inl, inr,
}
use operator_oss.Maps.{get, get-set, get-delete}
use operator_oss.Sets.{member-add, member-remove}
use operator_oss.Turns.{
  Registry, claim_turn, handoff_turn, register_turn, unregister_turn, abort_turn,
  begin_task_deletion, end_task_deletion, has_turn, owns_turn, is_task_deleting,
}
use operator_oss.Turns.Invariant.{IsWellFormed}
use operator_oss.Turns.Ops.{
  Op, claims, hands, registers, releases, stops, begins, ends, task_of, step, slot_of, slot_step,
}

-- Every call changes the slot of its own task as the slot machine says, with the same reply, and
-- leaves the slot of every other task as it is.
pub step-slot_step :
    (op : Op) (s : Registry) (i : String)
    → (slot_of i (step op s).0
        ≡ (if str_eq (task_of op) i then (slot_step op s.next (slot_of i s)).0 else slot_of i s))
      × ((step op s).1 ≡ (slot_step op s.next (slot_of (task_of op) s)).1)
unfolding step slot_of slot_step claim_turn handoff_turn register_turn unregister_turn abort_turn
    begin_task_deletion end_task_deletion
step-slot_step (claims id) s i =
    (ground (arith, get-set id i s.next s.turns, eq_iff id i), ground arith)
step-slot_step (hands id prev) s i =
    (ground (arith, get-set id i s.next s.turns, eq_iff id i), ground arith)
step-slot_step (registers id c) s i =
    (ground (arith, get-set id i c s.turns, eq_iff id i), ground arith)
step-slot_step (releases id c) s i =
    (ground (arith, get-delete id i s.turns, eq_iff id i), ground arith)
step-slot_step (stops id) s i = (ground (arith, get-delete id i s.turns, eq_iff id i), ground arith)
step-slot_step (begins id) s i =
    (ground (arith, member-add id i s.deleting, eq_iff id i), ground arith)
step-slot_step (ends id) s i =
    (ground (arith, member-remove id i s.deleting, eq_iff id i), ground arith)

-- A claim either changes nothing and gives no controller, because the task is being deleted or has a
-- live turn, or, where neither is so, gives a controller that holds the slot from then on, is
-- untripped, and was registered for no task before.
pub claim_turn_exclusive :
    (id : String) (late : List String) (s : Registry)
    → IsWellFormed late s
    → ((claim_turn id s ≡ (s, none)) × ((is_task_deleting id s ≡ true) ⊎ (has_turn id s ≡ true)))
      ⊎ ((c : ℕ) × ((claim_turn id s).1 ≡ some c)
          × (is_task_deleting id s ≡ false)
          × (has_turn id s ≡ false)
          × (owns_turn id c (claim_turn id s).0 ≡ true)
          × (mem c (claim_turn id s).0.aborted ≡ false)
          × ((i : String) → get i s.turns ≢ some c))
unfolding claim_turn has_turn owns_turn
claim_turn_exclusive id late s v = elim (Bool-cases (is_task_deleting id s)) [
  | inl d ↦ inl (rw d, inl d)
  | inr d ↦ elim (Option-cases (get id s.turns)) [
    | inr (c, e) ↦ inl (ground arith, inr (ground arith))
    | inl e ↦ inr (
      s.next,
      ground arith,
      d,
      ground arith,
      ground (arith, get-set id id s.next s.turns, eq_iff id id),
      ground (arith, v.tripped s.next),
      λ i f. ground (arith, v.allocated i s.next),
    )
  ]
]

-- A handoff either changes nothing and gives no controller, because the task is being deleted or the
-- finishing turn does not own the slot, or, where neither is so, passes the slot to another,
-- untripped controller in the same step; the finishing turn's own release then does nothing.
pub handoff_turn_atomic :
    (id : String) (prev : ℕ) (late : List String) (s : Registry)
    → IsWellFormed late s
    → ((handoff_turn id prev s ≡ (s, none))
        × ((is_task_deleting id s ≡ true) ⊎ (owns_turn id prev s ≡ false)))
      ⊎ ((c : ℕ) × ((handoff_turn id prev s).1 ≡ some c)
          × (is_task_deleting id s ≡ false)
          × (owns_turn id prev s ≡ true)
          × (owns_turn id c (handoff_turn id prev s).0 ≡ true)
          × (c ≢ prev)
          × (mem c (handoff_turn id prev s).0.aborted ≡ false)
          × (unregister_turn id prev (handoff_turn id prev s).0 ≡ (handoff_turn id prev s).0))
unfolding handoff_turn unregister_turn
handoff_turn_atomic id prev late s v = elim (Bool-cases (is_task_deleting id s)) [
  | inl d ↦ inl (rw d, inl d)
  | inr d ↦ elim (Bool-cases (owns_turn id prev s)) [
    | inr e ↦ inl (ground arith, inr e)
    | inl e ↦ inr (
      s.next,
      ground arith,
      d,
      e,
      ground (arith, get-set id id s.next s.turns, eq_iff id id),
      ground (arith, v.allocated id prev),
      ground (arith, v.tripped s.next),
      ground (arith, get-set id id s.next s.turns, eq_iff id id, v.allocated id prev),
    )
  ]
]

-- A Stop leaves the slot free, reports whether a turn was live, and trips the holder's controller
-- and no other.
pub abort_turn_frees :
    (id : String) (s : Registry) (c : ℕ)
    → (has_turn id (abort_turn id s).0 ≡ false)
      × ((abort_turn id s).1 ≡ has_turn id s)
      × ((mem c (abort_turn id s).0.aborted ≡ true)
          ↔ ((owns_turn id c s ≡ true) ⊎ (mem c s.aborted ≡ true)))
unfolding abort_turn has_turn owns_turn
abort_turn_frees id s c = (
  ground (arith, get-delete id id s.turns, eq_iff id id),
  ground arith,
  (λ h. ground arith, λ h. ground arith),
)
