-- ===== src/Turns.antt =====
-- lib/abort.ts: the registry of live turns, one AbortController for each task, and the set of tasks
-- that are being deleted. A controller is the number of its creation; `aborted` lists those whose
-- signal was tripped. The runtime is single-threaded, so each function is one step.
pub mod Ops
pub mod Slots
pub mod Invariant
pub mod Deletion
pub mod Waiting
use operator_oss.Base.{
  ℕ, zero, suc, ◌+◌, Bool, true, false, Option, none, some, List, [], ◌∷◌, String, ◌==◌, leb,
  if◌then◌else◌, is_some, is_it, length, mem,
}
use operator_oss.Maps.{get, set, delete, has}
use operator_oss.Sets.{member, add, remove}

pub record Registry : Type 0 where
  pub turns : List (String × ℕ)
  pub deleting : List String
  pub next : ℕ  -- controllers created so far
  pub aborted : List ℕ

abbrev pub empty_registry : Registry
empty_registry = record { turns = []; deleting = []; next = 0; aborted = [] }

unfoldable pub is_task_deleting : String → Registry → Bool
is_task_deleting id s = member id s.deleting

unfoldable pub has_turn : String → Registry → Bool
has_turn id s = has id s.turns

unfoldable pub owns_turn : String → ℕ → Registry → Bool
owns_turn id c s = is_it (get id s.turns) c

-- `new AbortController()` put in the slot.
abbrev occupy : String → Registry → Registry × Option ℕ
occupy id s = (record s { turns = set id s.next s.turns; next = s.next + 1 }, some s.next)

unfoldable pub claim_turn : String → Registry → Registry × Option ℕ
unfolding is_task_deleting
claim_turn id s =
    if is_task_deleting id s then (s, none) else if has id s.turns then (s, none) else occupy id s

unfoldable pub handoff_turn : String → ℕ → Registry → Registry × Option ℕ
unfolding is_task_deleting owns_turn
handoff_turn id prev s =
    if is_task_deleting id s
    then (s, none)
    else if owns_turn id prev s
    then occupy id s
    else (s, none)

unfoldable pub register_turn : String → ℕ → Registry → Registry
register_turn id c s = record s { turns = set id c s.turns }

unfoldable pub unregister_turn : String → ℕ → Registry → Registry
unfolding owns_turn
unregister_turn id c s = if owns_turn id c s then record s { turns = delete id s.turns } else s

-- The live turn's signal, by its `aborted` flag.
unfoldable pub turn_signal : String → Registry → Option Bool
turn_signal id s = elim (get id s.turns) [ none ↦ none | some c ↦ some (mem c s.aborted) ]

unfoldable pub active_turn_count : Registry → ℕ
active_turn_count s = length s.turns

unfoldable pub abort_turn : String → Registry → Registry × Bool
abort_turn id s = elim (get id s.turns) [
  | none ↦ (s, false)
  | some c ↦ (record s { turns = delete id s.turns; aborted = c ∷ s.aborted }, true)
]

-- `registry().get(taskId)?.abort()`.
abbrev trip : Option ℕ → List ℕ → List ℕ
trip none cs = cs
trip (some c) cs = c ∷ cs

unfoldable pub begin_task_deletion : String → Registry → Registry × Bool
begin_task_deletion id s = if member id s.deleting then (s, false) else (
  record s { deleting = add id s.deleting; aborted = trip (get id s.turns) s.aborted },
  true,
)

unfoldable pub end_task_deletion : String → Registry → Registry
end_task_deletion id s = record s { deleting = remove id s.deleting }

pub data Settlement : Type 0 where
  settled timed_out out_of_fuel : Settlement

-- The polls of `waitForTurnSettlement`: poll `i` reads the clock and the registry of its moment.
unfoldable pub poll_settlement : String → (ℕ → ℕ) → (ℕ → Registry) → ℕ → ℕ → ℕ → Settlement
unfolding has_turn
poll_settlement id clock world deadline zero i = out_of_fuel
poll_settlement id clock world deadline (suc fuel) i =
    let rest = poll_settlement id clock world deadline fuel (i + 1) in
    if has_turn id (world i) then (if leb deadline (clock i) then timed_out else rest) else settled

unfoldable pub wait_for_turn_settlement : String → ℕ → (ℕ → ℕ) → (ℕ → Registry) → ℕ → Settlement
unfolding poll_settlement
wait_for_turn_settlement id timeout_ms clock world fuel =
    poll_settlement id clock world (clock 0 + timeout_ms) fuel 0
