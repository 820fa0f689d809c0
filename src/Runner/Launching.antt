-- ===== src/Runner/Launching.antt =====
-- lib/runner.ts: a launch either runs the turn with the slot in its hands or frees the slot.
use operator_oss.Base.{
  ℕ, ◌≡◌, refl, inl, inr, ◌⊎◌, Bool, true, false, not, Option, none, some, String, if◌then◌else◌,
  is_some, arith, Bool-cases, Option-cases, ◌==◌,
}
use operator_oss.Maps.{get, get-delete_self}
use operator_oss.Turns.{Registry, owns_turn, has_turn, unregister_turn}
use operator_oss.World.{
  World, Task, Role, Body, BusEvent, get_task, update_task, publish, add_message, plain,
}
use operator_oss.Runner.{Classifiers, Turn, publish_turn_error}
use operator_oss.Runner.Settle.{Drain}
use operator_oss.Runner.Launch.{
  running, threw, foreign_key, while_waiting, launched, dropped, begin_running, rebase, catch_up,
  note_of, new_turn, release, start_turn, resume_holding, start_resume_turn, launch_drain,
}
use operator_oss.Runner.Frames.{
  Same, map_row, update_task_lem, add_message-some, publish_turn_error-Same,
}

pub add_message-none :
    (id : String) (gen : ℕ) (role : Role) (body : Body) (w : World)
    → get_task id w ≡ none
    → add_message id gen role body w ≡ none
unfolding add_message
add_message-none id gen role body w h = ground (arith, h)

pub owns_turn-unregister_turn :
    (id : String) (c : ℕ) (s : Registry) → owns_turn id c (unregister_turn id c s) ≡ false
unfolding owns_turn unregister_turn
owns_turn-unregister_turn id c s = ground (arith, get-delete_self id s.turns)

-- The turn of a launch, with the task's row and slot at that moment.
pub record IsLaunched (id : String) (task : Task) (sync : Option (String × String)) (c : ℕ)
    (w : World) (t : Turn) (w' : World) : Type 0 where
  pub task_id : t.task_id ≡ id
  pub generation : t.gen ≡ task.generation
  pub controller : t.controller ≡ c
  pub row :
      get_task id w' ≡ map_row (λ r. begin_running (rebase (catch_up task sync) r)) (get_task id w)
  pub turns : w'.turns ≡ w.turns
  pub pending : w'.pending ≡ w.pending

module _ (id : String) (task : Task) (registers : Bool) (sync : Option (String × String))
    (meanwhile : World → World) (text : String) (c : ℕ) (w : World) where
  -- The world after the wait.
  abbrev waited : World
  waited = while_waiting task meanwhile w

  caught_up : World
  caught_up = update_task id (λ r. rebase (catch_up task sync) r) waited

  abbrev pub Runs : Type 0
  Runs =
      (t : Turn) × (resume : Bool) × (w' : World) × (resume_holding id task registers sync meanwhile
          text c w
        ≡ running t resume (note_of (catch_up task sync)) w')
      × IsLaunched id task sync c waited t w'

  resumed_Runs :
      (w₂ : World) (n : ℕ)
      → add_message id task.generation Role.user (plain text) caught_up ≡ some (w₂, n)
      → Same id caught_up w₂
      → Runs
  unfolding resume_holding start_turn caught_up
  resumed_Runs w₂ n e same =
      let u = update_task_lem id (λ r. rebase (catch_up task sync) r) waited in
      let v = update_task_lem id begin_running w₂ in
      let w' = publish id (BusEvent.message_event Role.user n) (update_task id begin_running w₂) in
      (
        new_turn id (rebase (catch_up task sync) task) c registers w',
        is_some (rebase (catch_up task sync) task).session_id,
        w',
        rw (e, resume_holding),
        record {
          task_id = refl;
          generation = ground arith;
          controller = refl;
          row = unfold publish in ground (arith, u.0, same.tasks, v.0);
          turns = unfold publish in ground (arith, u.1.turns, same.turns, v.1.turns);
          pending = unfold publish in ground (arith, u.1.pending, same.pending, v.1.pending);
        },
      )

  pub resume_holding_Runs : is_some (get_task id waited) ≡ true → Runs
  unfolding caught_up
  resume_holding_Runs h =
      let (w₂, n, e, same) =
        add_message-some id id task.generation Role.user (plain text) caught_up
          (ground (arith, (update_task_lem id (λ r. rebase (catch_up task sync) r) waited).0)) in
      resumed_Runs w₂ n e same

  -- The row is gone: the insert of the message throws, and the slot is given back.
  pub vanished :
      get_task id waited ≡ none
      → (w' : World) × (resume_holding id task registers sync meanwhile text c w
          ≡ threw foreign_key w')
        × (owns_turn id c w'.turns ≡ false)
        × (get_task id w' ≡ none)
  unfolding resume_holding caught_up
  vanished h =
      let lost =
        add_message-none id task.generation Role.user (plain text) caught_up
          (ground (arith, (update_task_lem id (λ r. rebase (catch_up task sync) r) waited).0, h)) in
      (
        record caught_up { turns = unregister_turn id c caught_up.turns },
        rw (lost, resume_holding) refl,
        owns_turn-unregister_turn id c caught_up.turns,
        ground (arith, (update_task_lem id (λ r. rebase (catch_up task sync) r) waited).0, h),
      )

module _ (k : Classifiers) (id : String) (gen : ℕ) (registers : Bool)
    (sync : Option (String × String)) (meanwhile : World → World) (d : Drain) (w : World) where
  -- A dequeued follow-up either is dropped and does not hold the slot any more; or it finds, after the
  -- branch caught up with its base, that the row is gone, throws and gives the slot back; or it runs, as
  -- a turn of the row that it read and of the generation that it was queued in, which held the slot
  -- before the wait: the row then is the one of after the wait, marked as running and not waiting, and
  -- the slots and the queue are those of after the wait, whatever the rest of the process did meanwhile.
  pub launch_drain_runs :
      ((w' : World) × (launch_drain k id gen registers sync meanwhile d w ≡ dropped w')
        × (owns_turn id d.controller w'.turns ≡ false))
      ⊎ ((task : Task) × (w' : World) × (get_task id w ≡ some task)
          × (get_task id (while_waiting task meanwhile w) ≡ none)
          × (launch_drain k id gen registers sync meanwhile d w ≡ launched (threw foreign_key w'))
          × (owns_turn id d.controller w'.turns ≡ false))
      ⊎ ((task : Task) × (t : Turn) × (resume : Bool) × (w' : World) × (get_task id w ≡ some task)
          × (task.generation ≡ gen)
          × (owns_turn id d.controller w.turns ≡ true)
          × (launch_drain k id gen registers sync meanwhile d w
              ≡ launched (running t resume (note_of (catch_up task sync)) w'))
          × IsLaunched id task sync d.controller (while_waiting task meanwhile w) t w')
  unfolding launch_drain start_resume_turn publish
  launch_drain_runs = elim (Option-cases (get_task id w)) [
    | inl gone ↦ inl (
      release id d.controller w,
      rw (gone, launch_drain),
      owns_turn-unregister_turn id d.controller w.turns,
    )
    | inr (cur, e) ↦ elim (Bool-cases (not (cur.generation == gen))) [
      | inl cleared ↦ inl (
        release id d.controller w,
        rw (e, cleared, launch_drain),
        owns_turn-unregister_turn id d.controller w.turns,
      )
      | inr same_gen ↦ elim (Option-cases (get cur.project_id w.projects)) [
        | inl no_project ↦ inl (
          publish id BusEvent.turn_end_event (
              publish_turn_error k id gen "Project was deleted; queued follow-up cancelled."
                (release id d.controller w)),
          rw (e, same_gen, no_project, launch_drain),
          ground (
            arith,
            (publish_turn_error-Same k id gen "Project was deleted; queued follow-up cancelled."
                (release id d.controller w)).turns,
            owns_turn-unregister_turn id d.controller w.turns,
          ),
        )
        | inr (project, f) ↦ elim (Bool-cases (owns_turn id d.controller w.turns)) [
          | inr lost ↦ inl (
            if has_turn id w.turns then w else publish id BusEvent.turn_end_event w,
            rw (e, same_gen, f, lost, launch_drain),
            ground arith,
          )
          | inl own ↦ elim (Option-cases (get_task id (while_waiting cur meanwhile w))) [
            | inl gone ↦
                let (w', r, lost, left) =
                  vanished id cur registers sync meanwhile d.message.content d.controller w gone in
                inr (inl (cur, w', e, gone, rw (e, same_gen, f, own, r, launch_drain), lost))
            | inr (row, found) ↦
                let (t, resume, w', r, h) =
                  resume_holding_Runs id cur registers sync meanwhile d.message.content d.controller
                    w (ground (arith, found)) in
                inr (
                  inr (
                    cur,
                    t,
                    resume,
                    w',
                    e,
                    ground arith,
                    own,
                    rw (e, same_gen, f, own, r, launch_drain),
                    h,
                  ))
          ]
        ]
      ]
    ]
  ]
