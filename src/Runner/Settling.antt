-- ===== src/Runner/Settling.antt =====
-- lib/runner.ts: lemmas on the `finally` block, branch by branch.
use operator_oss.Base.{
  ℕ, ◌+◌, ◌≡◌, refl, inl, inr, ◌⊎◌, Bool, true, false, not, ◌&&◌, ◌||◌, Option, none, some, String,
  if◌then◌else◌, is_some, arith, ◌∙◌,
}
use operator_oss.Maps.{get-set_self, get-delete_self}
use operator_oss.Turns.{Registry, has_turn, owns_turn, handoff_turn, unregister_turn}
use operator_oss.Pending.{pop_pending_message, clear_pending_messages}
use operator_oss.World.{World, Task, get_task}
use operator_oss.Runner.{Classifiers, Turn, truthy}
use operator_oss.Runner.Settle.{
  Drain, settled, close, hand_over, finish, track_end, settle_row, settle_session, settle_login,
  is_superseded, is_stopped, is_advanced,
}
use operator_oss.Runner.Frames.{
  ends, map_row, settled_row, track_end-Same, settle_session-Same, settle_login-Same,
  settle_row_lem, finish_lem,
}
use operator_oss.Runner.HandingOver.{hand_over_cases}

pub has_turn-unregister_turn :
    (id : String) (c : ℕ) (s : Registry)
    → has_turn id (unregister_turn id c s) ≡ (has_turn id s && not (owns_turn id c s))
unfolding has_turn owns_turn unregister_turn
has_turn-unregister_turn id c s = ground (arith, get-delete_self id s.turns)

handoff_turn_owned :
    (id : String) (prev c : ℕ) (s : Registry)
    → (handoff_turn id prev s).1 ≡ some c
    → (has_turn id (handoff_turn id prev s).0 ≡ true)
      × (owns_turn id c (handoff_turn id prev s).0 ≡ true)
unfolding has_turn owns_turn handoff_turn
handoff_turn_owned id prev c s e = ground (arith, get-set_self id s.next s.turns)

module _ (k : Classifiers) (t : Turn) (w : World) where
  -- Whether some other turn goes on after this one.
  abbrev pub goes_on : Option Drain → Bool
  goes_on d = is_superseded t w || is_some d

  abbrev pub parked : Bool
  parked = truthy t.auth_failure || truthy t.usage_limit_failure

  pub record IsSettled (w' : World) (d : Option Drain) : Type 0 where
    -- The row is settled unless /clear moved it on or a successor owns it.
    pub row : get_task t.task_id w' ≡ (
        if not (is_advanced t w) && not (is_superseded t w)
        then map_row (settled_row t) (get_task t.task_id w)
        else get_task t.task_id w)
    -- The slot is taken exactly where another turn goes on.
    pub slot : has_turn t.task_id w'.turns ≡ goes_on d
    -- The end of the turn is announced once, and not at all where another turn goes on.
    pub announced : ends t.task_id w'.bus ≡ ends t.task_id w.bus + (if goes_on d then 0 else 1)
    -- A stop or a /clear empties the queue, a dead login or a spent quota keeps it, a successor keeps
    -- it, and otherwise its oldest message is taken with the slot.
    pub queue : w'.pending ≡ (
        if is_superseded t w
        then w.pending
        else if is_stopped t w || is_advanced t w
        then (clear_pending_messages t.task_id w.pending).0
        else if parked
        then w.pending
        else if is_some (handoff_turn t.task_id t.controller w.turns).1
        then (pop_pending_message t.task_id w.pending).0
        else w.pending)
    -- A message goes on to the next turn only where it was popped and holds the slot.
    pub drain :
        (d ≡ none)
        ⊎ ((x : Drain) × (d ≡ some x)
            × ((pop_pending_message t.task_id w.pending).1 ≡ some x.message)
            × (owns_turn t.task_id x.controller w'.turns ≡ true)
            × (is_stopped t w ≡ false)
            × (is_advanced t w ≡ false)
            × (parked ≡ false))

  unfoldable pub before : World
  before = settle_login t (settle_session t (settle_row t (track_end t w)))

  pub record IsBefore (v : World) : Type 0 where
    pub row : get_task t.task_id v ≡ (
        if not (is_advanced t w) && not (is_superseded t w)
        then map_row (settled_row t) (get_task t.task_id w)
        else get_task t.task_id w)
    pub pending : v.pending ≡ w.pending
    pub turns : v.turns ≡ w.turns
    pub announced : ends t.task_id v.bus ≡ ends t.task_id w.bus

  pub before-IsBefore : IsBefore before
  unfolding before is_superseded is_advanced
  before-IsBefore =
      let a = track_end-Same t w in
      let b = settle_row_lem t (track_end t w) in
      let c = settle_session-Same t (settle_row t (track_end t w)) in
      let e = settle_login-Same t (settle_session t (settle_row t (track_end t w))) in
      ground (
        arith, a.tasks, a.pending, a.turns, a.announced, b.0, b.1.pending, b.1.turns, b.1.announced,
        c.tasks, c.pending, c.turns, c.announced, e.tasks, e.pending, e.turns, e.announced,
      )

  pub finished-IsSettled :
      (v : World) (current : Option Task) (advanced : Bool)
      → is_superseded t w ≡ false
      → IsBefore (record v { pending = w.pending; turns = w.turns })
      → is_superseded t v ≡ false
      → v.pending ≡ (
          if is_superseded t w
          then w.pending
          else if is_stopped t w || is_advanced t w
          then (clear_pending_messages t.task_id w.pending).0
          else if parked
          then w.pending
          else if is_some (handoff_turn t.task_id t.controller w.turns).1
          then (pop_pending_message t.task_id w.pending).0
          else w.pending)
      → IsSettled (finish t current advanced v) none
  unfolding is_superseded
  finished-IsSettled v current advanced sup b own queue =
      let f = finish_lem t current advanced v in
      record {
        row = ground (arith, f.0, b.row);
        slot =
            ground (arith, f.2, sup, has_turn-unregister_turn t.task_id t.controller v.turns, own);
        announced = ground (arith, f.3, b.announced, sup);
        queue = f.1 ∙ queue;
        drain = inl refl;
      }

  pub closed-IsSettled :
      is_superseded t w ≡ false
      → (is_stopped t w || is_advanced t w) ≡ false
      → parked ≡ false
      → (w' : World) × (d : Option Drain) × (close k t
            (get_task t.task_id w)
            false
            (hand_over k t before)
          ≡ settled w' d)
        × IsSettled w' d
  unfolding is_superseded
  closed-IsSettled sup live free =
      let b = before-IsBefore in
      elim (hand_over_cases k t before) [
        | inl h ↦ (
          finish t (get_task t.task_id w) false before,
          none,
          rw h.result,
          finished-IsSettled before (get_task t.task_id w) false sup
              (record { row = b.row; pending = refl; turns = refl; announced = b.announced })
              (ground (arith, b.turns)) (ground (arith, b.turns, b.pending, h.refused)),
        )
        | inr (inl (d, h)) ↦ (
          (hand_over k t before).0,
          some d,
          ground (arith, h.result),
          record {
            row = ground (arith, h.tasks, b.row);
            slot = ground (
              arith,
              h.turns,
              b.turns,
              handoff_turn_owned t.task_id t.controller d.controller w.turns,
              h.slot,
            );
            announced = ground (arith, h.announced, b.announced);
            queue = ground (arith, h.pending, b.pending, b.turns, h.slot);
            drain = inr (
              d,
              refl,
              ground (arith, h.popped, b.pending),
              ground (
                arith,
                h.turns,
                b.turns,
                handoff_turn_owned t.task_id t.controller d.controller w.turns,
                h.slot,
              ),
              ground arith,
              ground arith,
              free,
            );
          },
        )
        | inr (inr (c, h)) ↦
            let v = (hand_over k t before).0 in
            (
              finish t (get_task t.task_id w) false v,
              none,
              ground (arith, h.result),
              finished-IsSettled v (get_task t.task_id w) false sup
                  (record {
                    row = ground (arith, h.tasks, b.row);
                    pending = refl;
                    turns = refl;
                    announced = ground (arith, h.announced, b.announced);
                  })
                  (ground (
                    arith,
                    h.turns,
                    b.turns,
                    h.slot,
                    has_turn-unregister_turn t.task_id c
                        (handoff_turn t.task_id t.controller before.turns).0,
                    handoff_turn_owned t.task_id t.controller c before.turns,
                  ))
                  (ground (arith, h.pending, b.turns, b.pending, h.slot)),
            )
      ]
