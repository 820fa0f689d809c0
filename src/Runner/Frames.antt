-- ===== src/Runner/Frames.antt =====
-- lib/runner.ts: what each part of the `finally` block leaves alone.
use operator_oss.Base.{
  ℕ, ◌+◌, ◌≡◌, refl, inl, inr, Bool, true, false, not, ◌&&◌, Option, none, some, List, [], ◌∷◌,
  String, str_eq, eq_iff, ◌==◌, if◌then◌else◌, is_some, length, arith, Bool-cases, Option-cases,
}
use operator_oss.Maps.{get-set}
use operator_oss.Turns.{unregister_turn}
use operator_oss.Pending.{PendingMessage, list_pending_messages, clear_pending_messages}
use operator_oss.World.{
  World, Task, BusEvent, Body, turn_end_event, get_task, update_task, publish, add_message,
  end_session, queue_lifecycle, track, Role,
}
use operator_oss.Runner.{Classifiers, Turn, truthy, publish_turn_error, clear_agent_auth_broken}
use operator_oss.Runner.Settle.{
  track_end, settle_row, settle_session, settle_login, publish_dequeued, discard_queue, park_queue,
  finish, is_superseded, is_advanced,
}

abbrev is_end : BusEvent → Bool
is_end turn_end_event = true
is_end _ = false

-- How often the end of a turn was announced for the task.
abbrev pub ends : String → List (String × BusEvent) → ℕ
ends id [] = 0
ends id ((i, ev) ∷ bus) = (if str_eq i id && is_end ev then 1 else 0) + ends id bus

-- `w'` differs from `w` in logs, messages, sessions and login flags at most.
pub record Same (id : String) (w w' : World) : Type 0 where
  pub tasks : w'.tasks ≡ w.tasks
  pub projects : w'.projects ≡ w.projects
  pub pending : w'.pending ≡ w.pending
  pub turns : w'.turns ≡ w.turns
  pub announced : ends id w'.bus ≡ ends id w.bus

pub Same-refl : (id : String) (w : World) → Same id w w
Same-refl id w = record {
  tasks = refl;
  projects = refl;
  pending = refl;
  turns = refl;
  announced = refl;
}

pub track_end-Same : (t : Turn) (w : World) → Same t.task_id w (track_end t w)
unfolding track_end track
track_end-Same t w = ground arith

pub settle_session-Same : (t : Turn) (w : World) → Same t.task_id w (settle_session t w)
unfolding settle_session end_session
settle_session-Same t w = ground arith

pub settle_login-Same : (t : Turn) (w : World) → Same t.task_id w (settle_login t w)
unfolding settle_login clear_agent_auth_broken publish
settle_login-Same t w = ground arith

pub add_message-some :
    (id i : String) (gen : ℕ) (role : Role) (body : Body) (w : World)
    → is_some (get_task id w) ≡ true
    → (w' : World) × (n : ℕ) × (add_message id gen role body w ≡ some (w', n)) × Same i w w'
unfolding add_message
add_message-some id i gen role body w h = elim (Option-cases (add_message id gen role body w)) [
  | inl e ↦ ground arith
  | inr ((w', n), e) ↦ (w', n, e, ground arith)
]

pub publish_dequeued-Same :
    (id : String) (ps : List PendingMessage) (w : World) → Same id w (publish_dequeued id ps w)
unfolding publish_dequeued publish
publish_dequeued-Same id [] w = ground arith
publish_dequeued-Same id (p ∷ ps) w =
    let h = publish_dequeued-Same id ps (publish id (BusEvent.dequeued_event p.id) w) in
    ground (arith, h.tasks, h.projects, h.pending, h.turns, h.announced)

pub discard_queue_lem :
    (t : Turn) (w : World)
    → Same t.task_id
        (record w { pending = (clear_pending_messages t.task_id w.pending).0 })
        (discard_queue t w)
unfolding discard_queue
discard_queue_lem t w =
    publish_dequeued-Same t.task_id (clear_pending_messages t.task_id w.pending).1 _

pub park_queue_lem :
    (t : Turn) (w : World)
    → is_some (get_task t.task_id w) ≡ true
    → (w' : World) × (park_queue t w ≡ some w') × Same t.task_id w w'
unfolding park_queue
park_queue_lem t w h =
    let parked = length (list_pending_messages t.task_id w.pending) in
    let (w₁, n, e, same) =
      add_message-some t.task_id t.task_id t.gen Role.system
        (Body.kept_note parked (truthy t.auth_failure)) w h in
    elim (Bool-cases (parked == 0)) [
      | inl empty ↦ (w, rw empty, Same-refl t.task_id w)
      | inr some_left ↦ (
        publish t.task_id (BusEvent.message_event Role.system n) w₁,
        rw (some_left, e),
        unfold publish in
            ground (arith, same.tasks, same.projects, same.pending, same.turns, same.announced),
      )
    ]

pub publish_turn_error-Same :
    (k : Classifiers) (id : String) (gen : ℕ) (text : String) (w : World)
    → Same id w (publish_turn_error k id gen text w)
unfolding publish_turn_error publish add_message
publish_turn_error-Same k id gen text w = ground arith

-- The row that the turn leaves: settled, or as it was where /clear or a successor owns it.
abbrev pub settled_row : Turn → Task → Task
settled_row t r = record r {
  running = false;
  session_id = t.session_id;
  awaiting_input = t.opened;
  turn_started_at = none;
}

abbrev pub map_row : (Task → Task) → Option Task → Option Task
map_row f none = none
map_row f (some r) = some (f r)

pub update_task_lem :
    (id : String) (f : Task → Task) (w : World)
    → (get_task id (update_task id f w) ≡ map_row f (get_task id w))
      × Same id (record w { tasks = (update_task id f w).tasks }) (update_task id f w)
unfolding update_task
update_task_lem id f w = elim (Option-cases (get_task id w)) [
  | inl e ↦ (ground arith, ground arith)
  | inr (r, e) ↦ (ground (arith, get-set id id (f r) w.tasks, eq_iff id id), ground arith)
]

pub settle_row_lem :
    (t : Turn) (w : World)
    → (get_task t.task_id (settle_row t w) ≡ (
        if not (is_advanced t w) && not (is_superseded t w)
        then map_row (settled_row t) (get_task t.task_id w)
        else get_task t.task_id w))
      × Same t.task_id (record w { tasks = (settle_row t w).tasks }) (settle_row t w)
unfolding settle_row
settle_row_lem t w = elim (Bool-cases (not (is_advanced t w) && not (is_superseded t w))) [
  | inl own ↦ rw (own, settle_row) (update_task_lem t.task_id (settled_row t) w)
  | inr other ↦ rw (other, settle_row) (refl, Same-refl t.task_id w)
]

pub finish_lem :
    (t : Turn) (current : Option Task) (advanced : Bool) (w : World)
    → ((finish t current advanced w).tasks ≡ w.tasks)
      × ((finish t current advanced w).pending ≡ w.pending)
      × ((finish t current advanced w).turns ≡ unregister_turn t.task_id t.controller w.turns)
      × (ends t.task_id (finish t current advanced w).bus ≡ ends t.task_id w.bus + 1)
unfolding finish publish queue_lifecycle
finish_lem t current advanced w = ground (arith, eq_iff t.task_id t.task_id)
