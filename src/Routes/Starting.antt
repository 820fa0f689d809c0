-- ===== src/Routes/Starting.antt =====
-- app/api/tasks/[id]/messages/route.ts with lib/runner.ts: a launch starts a turn, or the insert throws.
use operator_oss.Base.{
  ℕ, ◌≡◌, ◌⊎◌, refl, ap, ◌∙◌, inl, inr, Bool, true, false, Option, some, String, if◌then◌else◌,
  is_some, arith, Option-cases,
}
use operator_oss.World.{World, Task, Role, plain, BusEvent, get_task, update_task, publish}
use operator_oss.Runner.{Turn}
use operator_oss.Runner.Frames.{map_row, update_task_lem, add_message-some}
use operator_oss.Runner.Launch.{
  Launched, running, threw, foreign_key, start_turn, start_resume_turn, begin_running, new_turn,
  rebase, catch_up, while_waiting, note_of,
}
use operator_oss.Runner.Launching.{resume_holding_Runs, vanished, add_message-none}
use operator_oss.LaunchConfig.{Capabilities}
use operator_oss.Routes.Send.{launch_first}

-- The turn of a launch, in the world after it.
pub record Started (id : String) (gen c : ℕ) (l : Launched) : Type 0 where
  pub turn : Turn
  pub resume : Bool
  pub note : String
  pub after : World
  pub launch : l ≡ running turn resume note after
  pub task_id : turn.task_id ≡ id
  pub generation : turn.gen ≡ gen
  pub controller : turn.controller ≡ c
  pub row : Task
  pub found : get_task id after ≡ some row
  pub runs : row.running ≡ true
  pub waits : row.awaiting_input ≡ false

abbrev pub StartedOrThrew : String → ℕ → ℕ → Launched → Type 0
StartedOrThrew id gen c l =
    ((text : String) × (w : World) × (l ≡ threw text w)) ⊎ Started id gen c l

pub either :
    {id : String} {gen c : ℕ} {l₁ l₂ : Launched} (b : Bool)
    → StartedOrThrew id gen c l₁
    → StartedOrThrew id gen c l₂
    → StartedOrThrew id gen c (if b then l₁ else l₂)
either true h k = h
either false h k = k

pub start_resume_turn-Started :
    (id : String) (t : Task) (registers : Bool) (sync : Option (String × String))
    (meanwhile : World → World) (text : String) (c : ℕ) (w : World)
    → StartedOrThrew id t.generation c
        (start_resume_turn id t registers sync meanwhile text (some c) w)
unfolding start_resume_turn
start_resume_turn-Started id t registers sync meanwhile text c w =
    elim (Option-cases (get_task id (while_waiting t meanwhile w))) [
      | inl gone ↦
          let (w', e, lost, left) = vanished id t registers sync meanwhile text c w gone in
          inl (foreign_key, w', e)
      | inr (row, found) ↦
          let (turn, resume, w', e, h) =
            resume_holding_Runs id t registers sync meanwhile text c w (ground (arith, found)) in
          inr (record {
            turn = turn;
            resume = resume;
            note = note_of (catch_up t sync);
            after = w';
            launch = e;
            task_id = h.task_id;
            generation = h.generation;
            controller = h.controller;
            row = begin_running (rebase (catch_up t sync) row);
            found = h.row ∙ ap (map_row (λ r. begin_running (rebase (catch_up t sync) r))) found;
            runs = refl;
            waits = refl;
          })
    ]

module _ (capabilities : String → Option Capabilities) (trim : String → String)
    (too_large : String → Bool) where
  pub launch_first-Started :
      (id : String) (t : Task) (registers : Bool) (text echo : String) (c : ℕ) (w : World)
      → StartedOrThrew id t.generation c
          (launch_first capabilities trim too_large id t registers text echo c w)
  unfolding launch_first start_turn
  launch_first-Started id t registers text echo c w = elim (Option-cases (get_task id w)) [
    | inl gone ↦
        let e = add_message-none id t.generation Role.user (plain echo) w gone in
        inl (foreign_key, w, rw (e, launch_first) refl)
    | inr (row, found) ↦
        let (w₁, n, e, same) =
          add_message-some id id t.generation Role.user (plain echo) w (ground (arith, found)) in
        let v = update_task_lem id begin_running w₁ in
        let w' =
          publish id (BusEvent.message_event Role.user n) (update_task id begin_running w₁) in
        inr (record {
          turn = new_turn id t c registers w';
          resume = is_some t.session_id;
          note = "";
          after = w';
          launch = rw (e, launch_first) refl;
          task_id = refl;
          generation = refl;
          controller = refl;
          row = begin_running row;
          found = unfold publish in ground (arith, v.0, same.tasks, found);
          runs = refl;
          waits = refl;
        })
  ]
