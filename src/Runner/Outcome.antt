-- ===== src/Runner/Outcome.antt =====
-- lib/runner.ts: what the `finally` block of a turn comes to.
use operator_oss.Base.{
  ◌≡◌, refl, inl, inr, true, false, ◌||◌, Option, none, some, is_some, arith, Bool-cases,
}
use operator_oss.World.{World, get_task}
use operator_oss.Runner.{Classifiers, Turn}
use operator_oss.Runner.Settle.{
  Drain, settled, settle, finish, discard_queue, park_queue, is_superseded, is_stopped, is_advanced,
}
use operator_oss.Runner.Frames.{discard_queue_lem, park_queue_lem}
use operator_oss.Runner.Settling.{
  IsSettled, before, parked, before-IsBefore, finished-IsSettled, closed-IsSettled,
}

module _ (k : Classifiers) (t : Turn) (w : World) where
  superseded-IsSettled : is_superseded t w ≡ true → IsSettled k t w (before k t w) none
  unfolding is_superseded
  superseded-IsSettled sup =
      let b = before-IsBefore k t w in
      record {
        row = b.row;
        slot = ground (arith, b.turns, sup);
        announced = ground (arith, b.announced, sup);
        queue = ground (arith, b.pending, sup);
        drain = inl refl;
      }

  discarded-IsSettled :
      is_superseded t w ≡ false
      → (is_stopped t w || is_advanced t w) ≡ true
      → IsSettled k t w
          (finish t (get_task t.task_id w) (is_advanced t w) (discard_queue t (before k t w)))
          none
  unfolding is_superseded
  discarded-IsSettled sup over =
      let b = before-IsBefore k t w in
      let q = discard_queue_lem t (before k t w) in
      finished-IsSettled k t w (discard_queue t (before k t w)) _ _ sup
        (record {
          row = ground (arith, q.tasks, b.row);
          pending = refl;
          turns = refl;
          announced = ground (arith, q.announced, b.announced);
        })
        (ground (arith, q.turns, b.turns)) (ground (arith, q.pending, b.pending))

  row_left : is_advanced t w ≡ false → is_some (get_task t.task_id (before k t w)) ≡ true
  unfolding is_advanced
  row_left live = let b = before-IsBefore k t w in ground (arith, b.row)

  parked-IsSettled :
      is_superseded t w ≡ false
      → (is_stopped t w || is_advanced t w) ≡ false
      → parked k t w ≡ true
      → (v : World) × (park_queue t (before k t w) ≡ some v)
        × IsSettled k t w (finish t (get_task t.task_id w) false v) none
  unfolding is_superseded
  parked-IsSettled sup live dead =
      let b = before-IsBefore k t w in
      let (v, e, same) = park_queue_lem t (before k t w) (row_left (ground arith)) in
      (
        v,
        e,
        finished-IsSettled k t w v _ _ sup
            (record {
              row = ground (arith, same.tasks, b.row);
              pending = refl;
              turns = refl;
              announced = ground (arith, same.announced, b.announced);
            })
            (ground (arith, same.turns, b.turns)) (ground (arith, same.pending, b.pending)),
      )

  pub settle-IsSettled :
      (w' : World) × (d : Option Drain) × (settle k t w ≡ settled w' d) × IsSettled k t w w' d
  unfolding settle before
  settle-IsSettled = elim (Bool-cases (is_superseded t w)) [
    | inl sup ↦ (before k t w, none, rw sup, superseded-IsSettled sup)
    | inr sup ↦ elim (Bool-cases (is_stopped t w || is_advanced t w)) [
      | inl over ↦ (_, none, rw (sup, over), discarded-IsSettled sup over)
      | inr live ↦ elim (Bool-cases (parked k t w)) [
        | inl dead ↦
            let (v, e, h) = parked-IsSettled sup live dead in
            (finish t (get_task t.task_id w) false v, none, rw (sup, live, dead, e), h)
        | inr free ↦
            let (w', d, e, h) = closed-IsSettled k t w sup live free in
            (w', d, rw (sup, live, free) e, h)
      ]
    ]
  ]
