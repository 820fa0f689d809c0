-- ===== src/Routes/Stopping.antt =====
-- app/api/tasks/[id]/abort/route.ts and app/api/tasks/[id]/pending/route.ts: what a Stop leaves.
use operator_oss.Base.{
  ℕ, ◌≡◌, ◌⊎◌, refl, inl, inr, true, false, none, some, List, [], ◌∷◌, String, str_eq, arith,
  eq_refl, Option-cases, mem,
}
use operator_oss.Maps.{get, delete, get-delete_self, get-delete}
use operator_oss.Turns.{Registry, has_turn, abort_turn}
use operator_oss.Pending.{PendingMessage, list_pending_messages, clear_pending_messages}
use operator_oss.Pending.Queue.{clear_pending_messages_empties}
use operator_oss.World.{World, BusEvent, dequeued_event, publish}
use operator_oss.Runner.Settle.{publish_dequeued}
use operator_oss.Routes.Stop.{post_abort}

-- The bus after a note for each dropped message, newest first.
abbrev pub announced :
    String → List PendingMessage → List (String × BusEvent) → List (String × BusEvent)
announced id [] bus = bus
announced id (p ∷ ps) bus = announced id ps ((id, dequeued_event p.id) ∷ bus)

publish_dequeued_lem :
    (id : String) (ps : List PendingMessage) (w : World)
    → publish_dequeued id ps w ≡ record w { bus = announced id ps w.bus }
unfolding publish_dequeued publish
publish_dequeued_lem id [] w = refl
publish_dequeued_lem id (p ∷ ps) w = publish_dequeued_lem id ps (publish id (dequeued_event p.id) w)

abort_free : (id : String) (r : Registry) → get id r.turns ≡ none → abort_turn id r ≡ (r, false)
unfolding abort_turn
abort_free id r free = rw (free, abort_turn) refl

abbrev tripped : String → ℕ → Registry → Registry
tripped id c r = record r { turns = delete id r.turns; aborted = c ∷ r.aborted }

abort_live :
    (id : String) (c : ℕ) (r : Registry)
    → get id r.turns ≡ some c
    → abort_turn id r ≡ (tripped id c r, true)
unfolding abort_turn
abort_live id c r live = rw (live, abort_turn) refl

-- A Stop of a task with no live turn changes nothing, and its parked messages stay. With a live turn it
-- trips that turn's controller and frees the slot, empties the task's queue and announces each message
-- that it drops; the rows of the tasks, and the slot and the queue of any other task, stay.
pub post_abort_cases :
    (id other : String) (w : World)
    → str_eq id other ≡ false
    → ((has_turn id w.turns ≡ false) × (post_abort id w ≡ (w, false)))
      ⊎ ((c : ℕ) × (w' : World) × (get id w.turns.turns ≡ some c)
          × (post_abort id w ≡ (w', true))
          × (mem c w'.turns.aborted ≡ true)
          × (has_turn id w'.turns ≡ false)
          × (list_pending_messages id w'.pending ≡ [])
          × (w'.bus ≡ announced id (list_pending_messages id w.pending) w.bus)
          × (w'.tasks ≡ w.tasks)
          × (get other w'.turns.turns ≡ get other w.turns.turns)
          × (list_pending_messages other w'.pending ≡ list_pending_messages other w.pending))
unfolding has_turn post_abort
post_abort_cases id other w apart = elim (Option-cases (get id w.turns.turns)) [
  | inl free ↦ inl (rw free refl, rw (abort_free id w.turns free, post_abort) refl)
  | inr (c, live) ↦
      let w₁ : World = record w {
        turns = tripped id c w.turns;
        pending = (clear_pending_messages id w.pending).0;
      } in
      let kept = clear_pending_messages_empties id other w.pending in
      let own = clear_pending_messages_empties id id w.pending in
      let e = publish_dequeued_lem id (clear_pending_messages id w.pending).1 w₁ in
      inr (
        c,
        publish_dequeued id (clear_pending_messages id w.pending).1 w₁,
        live,
        rw (abort_live id c w.turns live, post_abort) refl,
        rw e (ground arith),
        rw (e, get-delete_self id w.turns.turns) refl,
        rw e (ground (arith, own.1, eq_refl id)),
        rw (e, own.0) refl,
        rw e refl,
        rw e (ground (arith, get-delete id other w.turns.turns)),
        rw e (ground (arith, kept.1)),
      )
]
