-- ===== src/Runner/Clearing.antt =====
-- lib/runner.ts: a /clear that comes while the branch of a resumed task catches up with its base.
use operator_oss.Base.{
  ℕ, ◌≡◌, refl, ap, ◌∙◌, subst, Bool, true, false, Option, none, some, String, arith, ◌==◌,
}
use operator_oss.World.{World, Task, get_task}
use operator_oss.Runner.{Classifiers, Turn}
use operator_oss.Runner.Settle.{Drain, settled, settle, is_advanced}
use operator_oss.Runner.Outcome.{settle-IsSettled}
use operator_oss.Runner.Frames.{map_row}
use operator_oss.Runner.Launch.{
  running, begin_running, rebase, catch_up, note_of, while_waiting, resume_holding,
}
use operator_oss.Runner.Launching.{resume_holding_Runs}

-- The `finally` block leaves the row alone where /clear moved it to another generation.
pub advanced_row :
    (k : Classifiers) (t : Turn) (id : String) (row : Task) (w : World)
    → t.task_id ≡ id
    → get_task id w ≡ some row
    → (row.generation == t.gen) ≡ false
    → (w' : World) × (d : Option Drain) × (settle k t w ≡ settled w' d)
      × (get_task id w' ≡ some row)
unfolding is_advanced
advanced_row k t id row w e f g =
    let (w', d, r, h) = settle-IsSettled k t w in
    let here : get_task t.task_id w ≡ some row = rw e f in
    let over : is_advanced t w ≡ true = ground (arith, here, g) in
    let kept : get_task t.task_id w' ≡ some row = ground (arith, h.row, over, here) in
    (w', d, r, subst (λ (i : String). get_task i w' ≡ some row) e kept)

rebase_generation :
    (s : Option (String × String)) (r : Task) → (rebase s r).generation ≡ r.generation
rebase_generation none r = refl
rebase_generation (some (tip, note)) r = ground arith

-- Where /clear moves the task to another generation during the catch-up, the turn of the old
-- generation starts all the same and marks the row as running; and when it then ends, even at once,
-- its `finally` block leaves that mark on the row of the new generation.
pub clear_in_catch_up_sticks :
    (k : Classifiers) (id : String) (task row : Task) (registers : Bool)
    (sync : Option (String × String)) (meanwhile : World → World) (text : String) (c : ℕ)
    (w : World)
    → get_task id (while_waiting task meanwhile w) ≡ some row
    → (row.generation == task.generation) ≡ false
    → (t : Turn) × (resume : Bool) × (w₁ w₂ : World) × (d : Option Drain) × (last : Task)
      × (resume_holding id task registers sync meanwhile text c w
          ≡ running t resume (note_of (catch_up task sync)) w₁)
      × (settle k t w₁ ≡ settled w₂ d)
      × (get_task id w₂ ≡ some last)
      × (last.running ≡ true)
      × (last.generation ≡ row.generation)
clear_in_catch_up_sticks k id task row registers sync meanwhile text c w found moved =
    let (t, resume, w₁, r, h) =
      resume_holding_Runs id task registers sync meanwhile text c w (ground (arith, found)) in
    let last = begin_running (rebase (catch_up task sync) row) in
    let here : get_task id w₁ ≡ some last =
      h.row ∙ ap (map_row (λ r. begin_running (rebase (catch_up task sync) r))) found in
    let same : (last.generation == t.gen) ≡ false =
      ground (arith, rebase_generation (catch_up task sync) row, h.generation, moved) in
    let (w₂, d, s, kept) = advanced_row k t id last w₁ h.task_id here same in
    (t, resume, w₁, w₂, d, last, r, s, kept, refl, rebase_generation (catch_up task sync) row)
