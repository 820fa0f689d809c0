-- ===== src/Runner/Settle.antt =====
-- lib/runner.ts: the `finally` block of `run`, one synchronous step, where the calls of analytics and of
-- the store do what they say; Runner/Crash has the block where one of them throws by itself.
use operator_oss.Base.{
  ℕ, Bool, true, false, not, ◌&&◌, ◌||◌, Option, none, some, List, [], ◌∷◌, String, ◌==◌,
  if◌then◌else◌, is_some, mem, length,
}
use operator_oss.Maps.{get}
use operator_oss.Turns.{has_turn, owns_turn, handoff_turn, unregister_turn}
use operator_oss.Pending.{
  PendingMessage, list_pending_messages, pop_pending_message, clear_pending_messages,
}
use operator_oss.World.{
  World, Task, Project, Status, kept_note, system, message_event, dequeued_event, turn_end_event,
  agent_auth_event, turn_needs_input, turn_failed, turn_completed, get_task, update_task, publish,
  add_message, end_session, queue_lifecycle, track,
}
use operator_oss.Runner.{Classifiers, Turn, truthy, publish_turn_error, clear_agent_auth_broken}

-- A popped follow-up on its way to the next turn: its slot and its row.
pub record Drain : Type 0 where
  pub controller : ℕ
  pub message : PendingMessage

pub data Settled : Type 0 where
  settled : World → Option Drain → Settled
  crashed : World → Settled

unfoldable pub is_superseded : Turn → World → Bool
is_superseded t w = has_turn t.task_id w.turns && not (owns_turn t.task_id t.controller w.turns)

unfoldable pub is_stopped : Turn → World → Bool
is_stopped t w = mem t.controller w.turns.aborted

abbrev generation_advanced : ℕ → Option Task → Bool
generation_advanced gen none = true
generation_advanced gen (some r) = not (r.generation == gen)

unfoldable pub is_advanced : Turn → World → Bool
is_advanced t w = generation_advanced t.gen (get_task t.task_id w)

abbrev or_empty : Option String → String
or_empty none = ""
or_empty (some s) = s

unfoldable pub track_end : Turn → World → World
track_end t w =
    if truthy t.turn_error && not (is_stopped t w)
    then track t.task_id (turn_failed t.gen (or_empty t.turn_error)) w
    else track t.task_id (turn_completed t.gen (is_stopped t w) t.turn_usage) w

-- Unless /clear or a successor owns it, the row gets the turn's outcome.
unfoldable pub settle_row : Turn → World → World
unfolding is_superseded is_advanced
settle_row t w =
    if not (is_advanced t w) && not (is_superseded t w)
    then update_task t.task_id
        (λ r. record r {
          running = false;
          session_id = t.session_id;
          awaiting_input = t.opened;
          turn_started_at = none;
        })
        w
    else w

unfoldable pub settle_session : Turn → World → World
settle_session t w = if t.opened then end_session t.task_id t.gen w else w

unfoldable pub settle_login : Turn → World → World
settle_login t w =
    if not (truthy t.turn_error) && t.opened
    then (let (w', cleared) = clear_agent_auth_broken t.agent w in
        if cleared then publish t.task_id (agent_auth_event t.agent false) w' else w')
    else w

unfoldable pub publish_dequeued : String → List PendingMessage → World → World
publish_dequeued id [] w = w
publish_dequeued id (p ∷ ps) w = publish_dequeued id ps (publish id (dequeued_event p.id) w)

-- A stop or a /clear: the parked queue is discarded.
unfoldable pub discard_queue : Turn → World → World
unfolding publish_dequeued
discard_queue t w =
    let (rows, dropped) = clear_pending_messages t.task_id w.pending in
    publish_dequeued t.task_id dropped (record w { pending = rows })

-- A dead login or a spent quota: the queue is kept, and the transcript says so.
unfoldable pub park_queue : Turn → World → Option World
park_queue t w =
    let parked = length (list_pending_messages t.task_id w.pending) in
    if parked == 0
    then some w
    else elim (add_message t.task_id t.gen system (kept_note parked (truthy t.auth_failure)) w) [
      | none ↦ none
      | some (w', n) ↦ some (publish t.task_id (message_event system n) w')
    ]

-- The end of a turn that no other takes over.
unfoldable pub finish : Turn → Option Task → Bool → World → World
finish t current advanced w =
    let needs_input = elim current as (λ _. Bool) [
      | none ↦ false
      | some r ↦ elim r.status as (λ _. Bool) [ Status.in_progress ↦ true | _ ↦ false ]
    ] in
    let w₁ =
      if t.opened && (not advanced && needs_input)
      then queue_lifecycle t.task_id (turn_needs_input t.gen t.started_at) w
      else w in
    publish t.task_id turn_end_event
      (record w₁ { turns = unregister_turn t.task_id t.controller w₁.turns })

abbrev pub project_of : Option Task → World → Option Project
project_of none w = none
project_of (some r) w = get r.project_id w.projects

module _ (k : Classifiers) where
  -- The queue's next message gets the slot; `none` where there is no one to run it.
  unfoldable pub drain_queue : Turn → ℕ → World → World × Option Drain
  drain_queue t c w =
      let (rows, popped) = pop_pending_message t.task_id w.pending in
      let w₁ = record w { pending = rows } in
      let fresh = get_task t.task_id w₁ in
      let freed = λ (v : World). record v { turns = unregister_turn t.task_id c v.turns } in
      elim popped [
        | none ↦ (freed w₁, none)
        | some p ↦ elim (project_of fresh w₁) [
          | some project ↦ (
            publish t.task_id (dequeued_event p.id) w₁,
            some (record { controller = c; message = p }),
          )
          | none ↦ (
            freed (
                if is_some fresh
                then publish_turn_error k t.task_id t.gen
                    "Project was deleted; queued follow-up cancelled."
                    (publish t.task_id (dequeued_event p.id) w₁)
                else w₁),
            none,
          )
        ]
      ]

  unfoldable pub hand_over : Turn → World → World × Option Drain
  unfolding drain_queue
  hand_over t w =
      let (reg, c) = handoff_turn t.task_id t.controller w.turns in
      elim c [ none ↦ (w, none) | some next ↦ drain_queue t next (record w { turns = reg }) ]

  abbrev pub close : Turn → Option Task → Bool → World × Option Drain → Settled
  close t current advanced (w, none) = settled (finish t current advanced w) none
  close t current advanced (w, some d) = settled w (some d)

  unfoldable pub settle : Turn → World → Settled
  settle t w =
      let w₁ = settle_login t (settle_session t (settle_row t (track_end t w))) in
      let current = get_task t.task_id w in
      if is_superseded t w
      then settled w₁ none
      else if is_stopped t w || is_advanced t w
      then settled (finish t current (is_advanced t w) (discard_queue t w₁)) none
      else if truthy t.auth_failure || truthy t.usage_limit_failure
      then elim (park_queue t w₁) [
        | none ↦ crashed w₁
        | some w₂ ↦ settled (finish t current false w₂) none
      ]
      else close t current false (hand_over t w₁)
