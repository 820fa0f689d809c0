-- ===== src/Runner/Crashing.antt =====
-- lib/runner.ts: what the end of a turn comes to, also where a call in its `finally` block throws.
use operator_oss.Base.{
  ◌+◌, ◌≡◌, refl, inl, inr, ◌⊎◌, Bool, true, false, not, ◌&&◌, ◌||◌, Option, none, some,
  if◌then◌else◌, is_some, arith, Bool-cases, Option-cases, ◌∙◌, eq_iff, subst, sym,
}
use operator_oss.Turns.{has_turn, handoff_turn, unregister_turn}
use operator_oss.World.{World, get_task, publish}
use operator_oss.Runner.{Classifiers, Turn, truthy}
use operator_oss.Runner.Settle.{
  Drain, Settled, crashed, settle, is_superseded, is_stopped, is_advanced, track_end, settle_row,
}
use operator_oss.Runner.Frames.{ends, update_task_lem, settle_row_lem, track_end-Same}
use operator_oss.Runner.Settling.{before, before-IsBefore, has_turn-unregister_turn}
use operator_oss.Runner.Outcome.{settle-IsSettled}
use operator_oss.Runner.Crash.{
  Fault, in_track, in_row, in_session, in_queue, runs_in, last_resort, queue_fault, run_finally,
  after_finally, end_turn,
}

-- The end of the turn was announced once, and the row of its generation does not run.
abbrev pub IsQuiet : Turn → World → World → Type 0
IsQuiet t w w' =
    (has_turn t.task_id w'.turns ≡ false)
    × (ends t.task_id w'.bus ≡ ends t.task_id w.bus + 1)
    × (runs_in t.gen (get_task t.task_id w') ≡ false)

abbrev freed : Turn → World → World
freed t w = record w { turns = unregister_turn t.task_id t.controller w.turns }

-- The handler of last resort leaves a slot that another turn holds, and settles the task else.
last_resort_settles :
    (t : Turn) (w : World)
    → ((has_turn t.task_id (last_resort t w).turns ≡ true) × (is_superseded t w ≡ true))
      ⊎ IsQuiet t w (last_resort t w)
unfolding last_resort publish is_superseded
last_resort_settles t w =
    let h = has_turn-unregister_turn t.task_id t.controller w.turns in
    let u = update_task_lem t.task_id (λ r. record r { running = false }) (freed t w) in
    elim (Bool-cases (has_turn t.task_id (unregister_turn t.task_id t.controller w.turns))) [
      | inl busy ↦ inl (ground (arith, busy, h))
      | inr free ↦ elim (Bool-cases (runs_in t.gen (get_task t.task_id w))) [
        | inl runs ↦ inr (
          ground (arith, free, runs, u.1.turns),
          ground (arith, free, runs, u.1.announced, eq_iff t.task_id t.task_id),
          ground (arith, free, runs, u.0),
        )
        | inr rests ↦ inr (
          ground (arith, free, rests),
          ground (arith, free, rests, eq_iff t.task_id t.task_id),
          ground (arith, free, rests),
        )
      ]
    ]

in_session_cases :
    (made : Bool) (s r : Settled) → ((if made then s else r) ≡ s) ⊎ ((if made then s else r) ≡ r)
in_session_cases true s r = inl refl
in_session_cases false s r = inr refl

module _ (k : Classifiers) where
  -- What a turn comes to at its end: another turn holds the slot, or the task is settled.
  abbrev pub IsOver : Option Fault → Turn → World → World × Option Drain → Type 0
  IsOver f t w r =
      ((has_turn t.task_id (r.0).turns ≡ true)
        × ((is_superseded t w ≡ true) ⊎ (is_some r.1 ≡ true) ⊎ (f ≡ some in_queue)))
      ⊎ IsQuiet t w r.0

  settled-IsOver :
      (f : Option Fault) (t : Turn) (w : World) → IsOver f t w (after_finally k t (settle k t w))
  unfolding is_superseded is_advanced
  settled-IsOver f t w =
      let (w', d, e, h) = settle-IsSettled k t w in
      elim (Bool-cases (is_superseded t w)) [
        | inl sup ↦ rw e (inl (ground (arith, h.slot, sup), inl sup))
        | inr own ↦ elim (Bool-cases (is_some d)) [
          | inl more ↦ rw e (inl (ground (arith, h.slot, own, more), inr (inl more)))
          | inr over ↦ rw e (
              inr (
                ground (arith, h.slot, own, over),
                ground (arith, h.announced, own, over),
                ground (arith, h.row, own),
              ))
        ]
      ]

  -- An exception in a world that differs in neither the slots nor the ends of turns.
  crashed-IsOver :
      (f : Option Fault) (t : Turn) (w v : World)
      → v.turns ≡ w.turns
      → ends t.task_id v.bus ≡ ends t.task_id w.bus
      → IsOver f t w (after_finally k t (crashed v))
  unfolding is_superseded
  crashed-IsOver f t w v same announced = elim (last_resort_settles t v) [
    | inl (busy, sup) ↦ inl (busy, inl (ground (arith, sup, same)))
    | inr (free, once, rests) ↦ inr (free, ground (arith, once, announced), rests)
  ]

  -- The handoff was made, and the controller that it put in the slot has no turn.
  handed-IsOver :
      (t : Turn) (w v : World)
      → ends t.task_id v.bus ≡ ends t.task_id w.bus
      → IsOver (some in_queue) t w (after_finally k t (crashed v))
  handed-IsOver t w v announced = elim (last_resort_settles t v) [
    | inl (busy, sup) ↦ inl (busy, inr (inr refl))
    | inr (free, once, rests) ↦ inr (free, ground (arith, once, announced), rests)
  ]

  same-IsOver :
      (f : Option Fault) (t : Turn) (w : World) (s r : Settled)
      → s ≡ r
      → IsOver f t w (after_finally k t r)
      → IsOver f t w (after_finally k t s)
  same-IsOver f t w s r e h = subst (λ x. IsOver f t w (after_finally k t x)) (sym e) h

  in_queue-IsOver :
      (t : Turn) (w v : World) (whole : Settled)
      → v.turns ≡ w.turns
      → ends t.task_id v.bus ≡ ends t.task_id w.bus
      → IsOver (some in_queue) t w (after_finally k t whole)
      → IsOver (some in_queue) t w (after_finally k t (queue_fault t w v whole))
  unfolding queue_fault
  in_queue-IsOver t w v whole same announced h =
      let threw = crashed-IsOver (some in_queue) t w v same announced in
      elim (Bool-cases (is_superseded t w)) [
        | inl sup ↦
            same-IsOver (some in_queue) t w (queue_fault t w v whole) whole
              (rw (sup, queue_fault) refl) h
        | inr own ↦ elim (Bool-cases (is_stopped t w || is_advanced t w)) [
          | inl over ↦
              same-IsOver (some in_queue) t w (queue_fault t w v whole) (crashed v)
                (rw (own, over, queue_fault) refl) threw
          | inr live ↦ elim (Bool-cases (truthy t.auth_failure || truthy t.usage_limit_failure)) [
            | inl dead ↦
                same-IsOver (some in_queue) t w (queue_fault t w v whole) (crashed v)
                  (rw (own, live, dead, queue_fault) refl) threw
            | inr free ↦ elim (Option-cases (handoff_turn t.task_id t.controller v.turns).1) [
              | inl none_left ↦
                  same-IsOver (some in_queue) t w (queue_fault t w v whole) whole
                    (rw (own, live, free, none_left, queue_fault) refl) h
              | inr (c, next) ↦
                  let v' = record v { turns = (handoff_turn t.task_id t.controller v.turns).0 } in
                  same-IsOver (some in_queue) t w (queue_fault t w v whole) (crashed v')
                    (rw (own, live, free, next, queue_fault) refl) (handed-IsOver t w v' announced)
            ]
          ]
        ]
      ]

  -- However a turn ends, also where in the `finally` block the call of analytics, the write of the row,
  -- the end of the session or the first call on the queue throws, so that the handler of the detached
  -- turn takes over: either its slot is free, exactly one more end of a turn was announced, and the
  -- task's row, if it is there and in the turn's generation, is not marked as running; or the slot is
  -- held, because a successor owned it before, or because a dequeued follow-up goes on, or because the
  -- call that threw was the one on the queue. The handler's own writes are taken to succeed.
  pub end_turn-IsOver : (f : Option Fault) (t : Turn) (w : World) → IsOver f t w (end_turn k f t w)
  unfolding end_turn run_finally before
  end_turn-IsOver none t w = settled-IsOver none t w
  end_turn-IsOver (some in_track) t w = crashed-IsOver (some in_track) t w w refl refl
  end_turn-IsOver (some in_row) t w =
      let a = track_end-Same t w in
      elim (Bool-cases (not (is_advanced t w) && not (is_superseded t w))) [
        | inl made ↦
            same-IsOver (some in_row) t w (run_finally k (some in_row) t w)
              (crashed (track_end t w)) (rw (made, run_finally) refl)
              (crashed-IsOver (some in_row) t w (track_end t w) a.turns a.announced)
        | inr not_made ↦
            same-IsOver (some in_row) t w (run_finally k (some in_row) t w) (settle k t w)
              (rw (not_made, run_finally) refl) (settled-IsOver (some in_row) t w)
      ]
  end_turn-IsOver (some in_session) t w =
      let a = track_end-Same t w in
      let b = settle_row_lem t (track_end t w) in
      let v = settle_row t (track_end t w) in
      let e : (run_finally k (some in_session) t w ≡ crashed v)
          ⊎ (run_finally k (some in_session) t w ≡ settle k t w) =
        in_session_cases t.opened (crashed v) (settle k t w) in
      elim e [
        | inl made ↦
            same-IsOver (some in_session) t w (run_finally k (some in_session) t w) (crashed v) made
              (crashed-IsOver (some in_session) t w v (b.1.turns ∙ a.turns)
                (b.1.announced ∙ a.announced))
        | inr not_made ↦
            same-IsOver (some in_session) t w (run_finally k (some in_session) t w) (settle k t w)
              not_made (settled-IsOver (some in_session) t w)
      ]
  end_turn-IsOver (some in_queue) t w =
      let b = before-IsBefore k t w in
      in_queue-IsOver t w (before k t w) (settle k t w) b.turns b.announced
        (settled-IsOver (some in_queue) t w)
