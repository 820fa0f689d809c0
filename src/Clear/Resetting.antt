-- ===== src/Clear/Resetting.antt =====
-- app/api/tasks/[id]/clear/route.ts with the `finally` block of lib/runner.ts: a clear is final.
use operator_oss.Base.{ℕ, ◌≡◌, refl, false, Option, some, [], String, arith, ◌==◌, eq_refl}
use operator_oss.Pending.{list_pending_messages, clear_pending_messages}
use operator_oss.Pending.Queue.{clear_pending_messages_empties}
use operator_oss.World.{World, Task, Role, plain, get_task, update_task}
use operator_oss.Runner.{Classifiers, Turn}
use operator_oss.Runner.Settle.{Drain, settled, settle, publish_dequeued}
use operator_oss.Runner.Frames.{update_task_lem, add_message-some, publish_dequeued-Same}
use operator_oss.Runner.Clearing.{advanced_row}
use operator_oss.Clear.{Handoff, fresh_row, begin_clear, end_clear, clear_task}

other_generation :
    (gen : ℕ) (handoff : Handoff) (row : Task) (g : ℕ)
    → g ≡ gen
    → ((fresh_row gen handoff row).generation == g) ≡ false
unfolding fresh_row
other_generation gen handoff row g e = ground (arith, e)

-- Where the task's row is still there after the wait, a clear succeeds: the row is that of a fresh
-- generation, and no follow-up is queued. And when a turn of the old generation ends after it,
-- however that turn went, its `finally` block leaves that row as it is.
pub clear_task_is_final :
    (id : String) (gen : ℕ) (handoff : Handoff) (meanwhile : World → World) (summary : String)
    (w : World) (row : Task) (k : Classifiers) (t : Turn)
    → get_task id (meanwhile (begin_clear id w)) ≡ some row
    → t.task_id ≡ id
    → t.gen ≡ gen
    → (w₁ w₂ : World) × (d : Option Drain) × (clear_task id gen handoff meanwhile summary w
        ≡ some w₁)
      × (get_task id w₁ ≡ some (fresh_row gen handoff row))
      × (list_pending_messages id w₁.pending ≡ [])
      × (settle k t w₁ ≡ settled w₂ d)
      × (get_task id w₂ ≡ some (fresh_row gen handoff row))
unfolding clear_task
clear_task_is_final id gen handoff meanwhile summary w row k t found task same =
    let v = meanwhile (begin_clear id w) in
    let (w₀, n, e, told) =
      add_message-some id id gen Role.session_break (plain summary) v (ground (arith, found)) in
    let fresh = update_task id (fresh_row gen handoff) w₀ in
    let u = update_task_lem id (fresh_row gen handoff) w₀ in
    let cleared = clear_pending_messages id fresh.pending in
    let w₁ = publish_dequeued id cleared.1 (record fresh { pending = cleared.0 }) in
    let pd = publish_dequeued-Same id cleared.1 (record fresh { pending = cleared.0 }) in
    let here : get_task id w₁ ≡ some (fresh_row gen handoff row) =
      ground (arith, pd.tasks, u.0, told.tasks, found) in
    let (w₂, d, ends, kept) =
      advanced_row k t id (fresh_row gen handoff row) w₁ task here
        (other_generation gen handoff row t.gen same) in
    (
      w₁,
      w₂,
      d,
      rw (e, end_clear) refl,
      here,
      ground
          (arith, pd.pending, (clear_pending_messages_empties id id fresh.pending).1, eq_refl id),
      ends,
      kept,
    )
