-- ===== src/Runner/FollowUps.antt =====
-- lib/runner.ts: a dequeued follow-up whose launch throws.
use operator_oss.Base.{ℕ, ◌≡◌, refl, ap, ◌∙◌, Bool, true, false, Option, none, some, String, ◌==◌}
use operator_oss.Maps.{get}
use operator_oss.Turns.{owns_turn}
use operator_oss.World.{World, Task, Project, Role, failure, get_task}
use operator_oss.Runner.{Classifiers}
use operator_oss.Runner.Settle.{Drain}
use operator_oss.Runner.Launch.{
  while_waiting, foreign_key, release, launched, threw, launch_drain, start_resume_turn,
}
use operator_oss.Runner.Launching.{vanished, add_message-none, owns_turn-unregister_turn}
use operator_oss.Runner.Crash.{rejected, drain_failsafe, after_launch, run_drain}

failsafe_fails :
    (id : String) (gen : ℕ) (opened : Bool) (text : String) (c : ℕ) (w : World)
    → get_task id w ≡ none
    → drain_failsafe id gen opened text c w ≡ rejected (release id c w)
unfolding drain_failsafe
failsafe_fails id gen opened text c w gone =
    rw
      (
        add_message-none id gen Role.system (failure text none) (release id c w) gone,
        drain_failsafe,
      )
      refl

-- The row of a dequeued follow-up is gone when its branch has caught up with the base: then the launch
-- throws, and so does the handler of that, in its own insert of the error; the slot is free.
pub vanished_drain_rejects :
    (k : Classifiers) (id : String) (gen : ℕ) (opened registers : Bool)
    (sync : Option (String × String)) (meanwhile : World → World) (d : Drain) (w : World)
    (task : Task) (project : Project)
    → get_task id w ≡ some task
    → (task.generation == gen) ≡ true
    → get task.project_id w.projects ≡ some project
    → owns_turn id d.controller w.turns ≡ true
    → get_task id (while_waiting task meanwhile w) ≡ none
    → (w' : World) × (run_drain k id gen opened registers sync meanwhile d w ≡ rejected w')
      × (owns_turn id d.controller w'.turns ≡ false)
      × (get_task id w' ≡ none)
unfolding run_drain launch_drain start_resume_turn
vanished_drain_rejects k id gen opened registers sync meanwhile d w task project read same there own
      gone =
    let (w₁, thrown, lost, left) =
      vanished id task registers sync meanwhile d.message.content d.controller w gone in
    let c = d.controller in
    let launch : launch_drain k id gen registers sync meanwhile d w
        ≡ launched (threw foreign_key w₁) =
      rw (read, same, there, own, thrown, launch_drain) refl in
    (
      release id c w₁,
      ap (after_launch id gen opened c) launch ∙ failsafe_fails id gen opened foreign_key c w₁ left,
      owns_turn-unregister_turn id c w₁.turns,
      left,
    )
