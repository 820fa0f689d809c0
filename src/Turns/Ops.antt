-- ===== src/Turns/Ops.antt =====
-- lib/abort.ts: the calls of the turn registry as values, the registry seen from one task, and what
-- each call does to one task's slot.
use operator_oss.Base.{
  ℕ, Bool, true, false, Option, none, some, List, [], ◌∷◌, String, if◌then◌else◌, is_some, is_it,
}
use operator_oss.Maps.{get}
use operator_oss.Sets.{member}
use operator_oss.Turns.{
  Registry, claim_turn, handoff_turn, register_turn, unregister_turn, abort_turn,
  begin_task_deletion, end_task_deletion,
}

pub data Op : Type 0 where
  claims : String → Op
  hands : String → ℕ → Op
  registers : String → ℕ → Op
  releases : String → ℕ → Op
  stops : String → Op
  begins : String → Op
  ends : String → Op

pub data Reply : Type 0 where
  controller : Option ℕ → Reply
  flag : Bool → Reply
  done : Reply

abbrev pub task_of : Op → String
task_of (claims id) = id
task_of (hands id prev) = id
task_of (registers id c) = id
task_of (releases id c) = id
task_of (stops id) = id
task_of (begins id) = id
task_of (ends id) = id

-- One call on the registry.
unfoldable pub step : Op → Registry → Registry × Reply
step (claims id) s = let (s', c) = claim_turn id s in (s', controller c)
step (hands id prev) s = let (s', c) = handoff_turn id prev s in (s', controller c)
step (registers id c) s = (register_turn id c s, done)
step (releases id c) s = (unregister_turn id c s, done)
step (stops id) s = let (s', b) = abort_turn id s in (s', flag b)
step (begins id) s = let (s', b) = begin_task_deletion id s in (s', flag b)
step (ends id) s = (end_task_deletion id s, done)

unfoldable pub run : List Op → Registry → Registry
run [] s = s
run (op ∷ ops) s = run ops (step op s).0

-- A task's share of the registry: who holds the slot, and whether the task is being deleted.
pub record Slot : Type 0 where
  pub holder : Option ℕ
  pub closing : Bool

unfoldable pub slot_of : String → Registry → Slot
slot_of id s = record { holder = get id s.turns; closing = member id s.deleting }

-- What a call does to its own task's slot, given the next fresh controller.
unfoldable pub slot_step : Op → ℕ → Slot → Slot × Reply
slot_step (claims id) fresh t =
    if t.closing
    then (t, controller none)
    else if is_some t.holder
    then (t, controller none)
    else (record t { holder = some fresh }, controller (some fresh))
slot_step (hands id prev) fresh t =
    if t.closing
    then (t, controller none)
    else if is_it t.holder prev
    then (record t { holder = some fresh }, controller (some fresh))
    else (t, controller none)
slot_step (registers id c) fresh t = (record t { holder = some c }, done)
slot_step (releases id c) fresh t =
    if is_it t.holder c then (record t { holder = none }, done) else (t, done)
slot_step (stops id) fresh t = (record t { holder = none }, flag (is_some t.holder))
slot_step (begins id) fresh t =
    if t.closing then (t, flag false) else (record t { closing = true }, flag true)
slot_step (ends id) fresh t = (record t { closing = false }, done)
