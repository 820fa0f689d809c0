-- ===== src/Runner/HandingOver.antt =====
-- lib/runner.ts: the three ways in which the `finally` block's handoff of the slot ends.
use operator_oss.Base.{ℕ, ◌≡◌, inl, inr, ◌⊎◌, Option, none, some, arith, Option-cases}
use operator_oss.Turns.{handoff_turn, unregister_turn}
use operator_oss.Pending.{pop_pending_message}
use operator_oss.World.{World, BusEvent, get_task, publish}
use operator_oss.Runner.{Classifiers, Turn}
use operator_oss.Runner.Settle.{Drain, hand_over, drain_queue, project_of}
use operator_oss.Runner.Frames.{ends, publish_turn_error-Same}

module _ (k : Classifiers) (t : Turn) where
  -- The slot could not be handed over: nothing changes.
  pub record IsRefused (w : World) (r : World × Option Drain) : Type 0 where
    pub refused : (handoff_turn t.task_id t.controller w.turns).1 ≡ none
    pub result : r ≡ (w, none)

  -- The slot passes to the queue's oldest message.
  pub record IsDrained (w : World) (r : World × Option Drain) (d : Drain) : Type 0 where
    pub slot : (handoff_turn t.task_id t.controller w.turns).1 ≡ some d.controller
    pub popped : (pop_pending_message t.task_id w.pending).1 ≡ some d.message
    pub result : r.1 ≡ some d
    pub turns : r.0.turns ≡ (handoff_turn t.task_id t.controller w.turns).0
    pub pending : r.0.pending ≡ (pop_pending_message t.task_id w.pending).0
    pub tasks : r.0.tasks ≡ w.tasks
    pub announced : ends t.task_id r.0.bus ≡ ends t.task_id w.bus

  -- There is nothing to run, or no project to run it in: the new slot is freed again.
  pub record IsIdle (w : World) (r : World × Option Drain) (c : ℕ) : Type 0 where
    pub slot : (handoff_turn t.task_id t.controller w.turns).1 ≡ some c
    pub empty :
        ((pop_pending_message t.task_id w.pending).1 ≡ none)
        ⊎ (project_of (get_task t.task_id w) w ≡ none)
    pub result : r.1 ≡ none
    pub turns :
        r.0.turns ≡ unregister_turn t.task_id c (handoff_turn t.task_id t.controller w.turns).0
    pub pending : r.0.pending ≡ (pop_pending_message t.task_id w.pending).0
    pub tasks : r.0.tasks ≡ w.tasks
    pub announced : ends t.task_id r.0.bus ≡ ends t.task_id w.bus

  drain_queue_cases :
      (w : World) (c : ℕ)
      → (handoff_turn t.task_id t.controller w.turns).1 ≡ some c
      → let v : World = record w { turns = (handoff_turn t.task_id t.controller w.turns).0 } in
        ((d : Drain) × IsDrained w (drain_queue k t c v) d) ⊎ IsIdle w (drain_queue k t c v) c
  unfolding drain_queue publish
  drain_queue_cases w c slot = elim (Option-cases (pop_pending_message t.task_id w.pending).1) [
    | inl e ↦ inr (record {
      slot = slot;
      empty = inl e;
      result = ground arith;
      turns = ground arith;
      pending = ground arith;
      tasks = ground arith;
      announced = ground arith;
    })
    | inr (p, e) ↦ elim (Option-cases (project_of (get_task t.task_id w) w)) [
      | inr (project, f) ↦ inl (
        record { controller = c; message = p },
        record {
          slot = slot;
          popped = e;
          result = ground arith;
          turns = ground arith;
          pending = ground arith;
          tasks = ground arith;
          announced = ground arith;
        },
      )
      | inl f ↦
          let same =
            publish_turn_error-Same k t.task_id t.gen
              "Project was deleted; queued follow-up cancelled."
              (publish t.task_id (BusEvent.dequeued_event p.id) (record w {
                turns = (handoff_turn t.task_id t.controller w.turns).0;
                pending = (pop_pending_message t.task_id w.pending).0;
              })) in
          inr (record {
            slot = slot;
            empty = inr f;
            result = ground arith;
            turns = ground (arith, same.turns);
            pending = ground (arith, same.pending);
            tasks = ground (arith, same.tasks);
            announced = ground (arith, same.announced);
          })
    ]
  ]

  pub hand_over_cases :
      (w : World)
      → IsRefused w (hand_over k t w)
        ⊎ ((d : Drain) × IsDrained w (hand_over k t w) d)
        ⊎ ((c : ℕ) × IsIdle w (hand_over k t w) c)
  unfolding hand_over
  hand_over_cases w = elim (Option-cases (handoff_turn t.task_id t.controller w.turns).1) [
    | inl e ↦ inl (record { refused = e; result = ground arith })
    | inr (c, e) ↦ elim (drain_queue_cases w c e) [
      | inl (d, h) ↦ rw (e, hand_over) (inr (inl (d, h)))
      | inr h ↦ rw (e, hand_over) (inr (inr (c, h)))
    ]
  ]
