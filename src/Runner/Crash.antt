-- ===== src/Runner/Crash.antt =====
-- lib/runner.ts: where a call of the `finally` block throws by itself (analytics, or a write that the
-- database refuses), and the two `.catch` handlers, that of a detached turn and that of a follow-up that
-- a finished turn starts. The writes of the first handler itself are taken to succeed.
use operator_oss.Base.{
  ℕ, Bool, false, not, ◌&&◌, ◌||◌, Option, none, some, String, ◌==◌, if◌then◌else◌,
}
use operator_oss.Turns.{has_turn, handoff_turn}
use operator_oss.World.{
  World, Task, failure, system, error_event, turn_end_event, get_task, update_task, publish,
  add_message,
}
use operator_oss.Runner.{Classifiers, Turn, truthy}
use operator_oss.Runner.Settle.{
  Drain, Settled, settled, crashed, settle, is_superseded, is_stopped, is_advanced, track_end,
  settle_row, settle_session, settle_login,
}
use operator_oss.Runner.Launch.{Launched, threw, Drained, launched, dropped, release, launch_drain}

-- The call that throws: of analytics, the write of the task's row, the end of its session, or the first
-- call on its queue.
pub data Fault : Type 0 where
  in_track in_row in_session in_queue : Fault

-- The row is there, in this generation, and marked as running.
abbrev pub runs_in : ℕ → Option Task → Bool
runs_in gen none = false
runs_in gen (some r) = r.generation == gen && r.running

-- The handler of the detached turn.
unfoldable pub last_resort : Turn → World → World
last_resort t w =
    let w₁ = release t.task_id t.controller w in
    if has_turn t.task_id w₁.turns
    then w₁
    else publish t.task_id turn_end_event (
        if runs_in t.gen (get_task t.task_id w₁)
        then update_task t.task_id (λ r. record r { running = false }) w₁
        else w₁)

-- The queue is asked for nothing where a successor owns it, and after a handoff that gets no slot.
unfoldable pub queue_fault : Turn → World → World → Settled → Settled
queue_fault t w w₁ whole =
    if is_superseded t w
    then whole
    else if is_stopped t w || is_advanced t w
    then crashed w₁
    else if truthy t.auth_failure || truthy t.usage_limit_failure
    then crashed w₁
    else (let (reg, c) = handoff_turn t.task_id t.controller w₁.turns in
        elim c [ none ↦ whole | some next ↦ crashed (record w₁ { turns = reg }) ])

module _ (k : Classifiers) where
  -- The `finally` block, where the first call of the kind throws; one that is not made throws nothing.
  unfoldable pub run_finally : Option Fault → Turn → World → Settled
  unfolding queue_fault
  run_finally none t w = settle k t w
  run_finally (some in_track) t w = crashed w
  run_finally (some in_row) t w =
      if not (is_advanced t w) && not (is_superseded t w)
      then crashed (track_end t w)
      else settle k t w
  run_finally (some in_session) t w =
      if t.opened then crashed (settle_row t (track_end t w)) else settle k t w
  run_finally (some in_queue) t w =
      queue_fault t w (settle_login t (settle_session t (settle_row t (track_end t w))))
        (settle k t w)

  abbrev pub after_finally : Turn → Settled → World × Option Drain
  after_finally t (settled w d) = (w, d)
  after_finally t (crashed w) = (last_resort t w, none)

  -- The end of a turn, with what goes on after it.
  unfoldable pub end_turn : Option Fault → Turn → World → World × Option Drain
  unfolding run_finally last_resort
  end_turn f t w = after_finally t (run_finally f t w)

-- What a dequeued follow-up comes to: a turn or a parked message, nothing to run, a launch that threw
-- and that the handler settled, or one where the handler threw as well.
pub data FollowUp : Type 0 where
  went_on : Launched → FollowUp
  given_up recovered rejected : World → FollowUp

-- The handler of the follow-up's launch; `opened` is of the turn before it.
unfoldable pub drain_failsafe : String → ℕ → Bool → String → ℕ → World → FollowUp
drain_failsafe id gen opened text c w =
    let w₁ = release id c w in
    let body = failure text none in
    elim (add_message id gen system body w₁) [
      | none ↦ rejected w₁
      | some (w₂, n) ↦ recovered (
          publish id turn_end_event (
            update_task id
              (λ r. record r { running = false; awaiting_input = opened; turn_started_at = none })
              (publish id (error_event body (some n)) w₂)))
    ]

abbrev pub after_launch : String → ℕ → Bool → ℕ → Drained → FollowUp
after_launch id gen opened c (dropped w) = given_up w
after_launch id gen opened c (launched (threw text w)) = drain_failsafe id gen opened text c w
after_launch id gen opened c (launched l) = went_on l

module _ (k : Classifiers) where
  unfoldable pub run_drain :
      String
      → ℕ
      → Bool
      → Bool
      → Option (String × String)
      → (World → World)
      → Drain
      → World
      → FollowUp
  unfolding launch_drain drain_failsafe
  run_drain id gen opened registers sync meanwhile d w =
      after_launch id gen opened d.controller (launch_drain k id gen registers sync meanwhile d w)
