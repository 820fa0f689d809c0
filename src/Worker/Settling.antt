-- ===== src/Worker/Settling.antt =====
-- lib/workstreams/worker.ts: an event that a pass is through with is no longer delivering.
use operator_oss.Base.{
  ℕ, ◌+◌, ◌≡◌, refl, inl, inr, false, not, ◌&&◌, Option, none, some, String, eq_iff, if◌then◌else◌,
  is_some, arith, Bool-cases, Option-cases,
}
use operator_oss.Maps.{get, get-set}
use operator_oss.Outbox.{Box, Event, Link, is_active}
use operator_oss.Outbox.Changes.{
  settle_claim, released, mark_delivered, mark_failed, mark_workstream_failed,
  mark_workstream_delivered, release_workstream_claim, set_workstream_state,
}
use operator_oss.Outbox.Delivery.{is_owner, Result-cases}
use operator_oss.Worker.{
  RemoteState, Failure, BridgeResult, sent, refused, Summary, Pass, release_event, pause_event,
  fail_event, refuse_event, find_remote, send_event, is_halted, result_of, settle_event,
  deliver_event, local_state_for_remote, gives_up, never_retry, retry_delay, stored_failure,
}

-- Nobody has the row claimed, unless the pass was interrupted.
record IsThrough (id token : String) (p : Pass) : Type 0 where
  free : (not (is_some p.thrown) && is_owner id token p.box) ≡ false

module _ (trim : String → String) (show : ℕ → String) (clock : String → ℕ) where
  release_event-IsThrough :
      (now : ℕ) (id token : String) (e : Event) (s : Summary) (b : Box)
      → IsThrough id token (release_event trim show clock now id e s b)
  unfolding release_event release_workstream_claim settle_claim
  release_event-IsThrough now id token e s b = elim (Option-cases (get id b.events)) [
    | inl n ↦ record { free = ground arith }
    | inr (x, n) ↦ record {
      free = ground (arith, get-set id id (released (clock id) now x) b.events, eq_iff id id);
    }
  ]

  pause_event-IsThrough :
      (now : ℕ) (id token : String) (e : Event) (remote : RemoteState) (s : Summary) (b : Box)
      → IsThrough id token (pause_event trim show clock now id e remote s b)
  unfolding pause_event
  pause_event-IsThrough now id token e remote s b =
      elim (Result-cases
        (set_workstream_state e.link_id (local_state_for_remote remote) (clock id) b)) [
          | inl (b', l, n) ↦ rw (n, pause_event) (release_event-IsThrough now id token e s b')
          | inr (x, n) ↦ rw (n, pause_event) (record { free = refl })
        ]

  fail_event-IsThrough :
      (now : ℕ) (id token : String) (e : Event) (f : Failure) (s : Summary) (b : Box)
      → IsThrough id token (fail_event trim show clock now id e f s b)
  unfolding fail_event mark_workstream_failed settle_claim
  fail_event-IsThrough now id token e f s b =
      let next = if gives_up f e then never_retry else (now + retry_delay e.attempts) in
      elim (Option-cases (get id b.events)) [
        | inl n ↦ record { free = ground arith }
        | inr (x, n) ↦
            let x' = mark_failed (clock id) (stored_failure show f) next x in
            record { free = ground (arith, get-set id id x' b.events, eq_iff id id) }
      ]

  send_event-IsThrough :
      (id token : String) (e : Event) (s : Summary) (b : Box)
      → IsThrough id token (send_event trim show clock id e s b)
  unfolding send_event mark_workstream_delivered settle_claim
  send_event-IsThrough id token e s b = elim (Option-cases (get id b.events)) [
    | inl n ↦ record { free = ground arith }
    | inr (x, n) ↦ record {
      free = ground (arith, get-set id id (mark_delivered (clock id) x) b.events, eq_iff id id);
    }
  ]

  refuse_event-IsThrough :
      (now : ℕ) (id token : String) (e : Event) (f : Failure) (found : Option RemoteState)
      (s : Summary) (b : Box)
      → IsThrough id token (refuse_event trim show clock now id e f found s b)
  unfolding refuse_event
  refuse_event-IsThrough now id token e f none s b = fail_event-IsThrough now id token e f s b
  refuse_event-IsThrough now id token e f (some remote) s b = elim (Bool-cases (is_halted remote)) [
    | inl h ↦ rw h (pause_event-IsThrough now id token e remote s b)
    | inr h ↦ rw h (fail_event-IsThrough now id token e f s b)
  ]

  settle_event-IsThrough :
      (reread : Option (Link → Box → Box × Option RemoteState)) (now : ℕ) (id token : String)
      (e : Event) (l : Link) (s : Summary) (r : BridgeResult) (b : Box)
      → IsThrough id token (settle_event trim show clock reread now id e l s r b)
  unfolding settle_event
  settle_event-IsThrough reread now id token e l s sent b = send_event-IsThrough id token e s b
  settle_event-IsThrough reread now id token e l s (refused f) b =
      let at = find_remote trim show clock reread f l b in
      refuse_event-IsThrough now id token e f at.1 s at.0

module _ (trim : String → String) (show : ℕ → String) (clock : String → ℕ)
    (deliver : Link → String × Event → Box → Box × Option BridgeResult)
    (reread : Option (Link → Box → Box × Option RemoteState)) where
  deliver_event-IsThrough :
      (now : ℕ) (id token : String) (e : Event) (l : Link) (s : Summary) (b : Box)
      → get e.link_id b.links ≡ some l
      → IsThrough id token (deliver_event trim show clock deliver reread now (id, e) s b)
  unfolding deliver_event
  deliver_event-IsThrough now id token e l s b n = elim (Bool-cases (is_active l.state)) [
    | inl h ↦
        rw (n, h, deliver_event)
          (settle_event-IsThrough trim show clock reread now id token e l s
            (result_of (deliver l (id, e) b).1) (deliver l (id, e) b).0)
    | inr h ↦ rw (n, h, deliver_event) (release_event-IsThrough trim show clock now id token e s b)
  ]

  -- Where the loop goes on after an event whose link exists, no claim on the event is left: whatever
  -- the delivery answered, threw, or let happen to the box meanwhile, and whatever the remote state
  -- turned out to be, the row is not delivering under any token.
  pub deliver_event_leaves_no_claim :
      (now : ℕ) (id token : String) (e : Event) (l : Link) (s : Summary) (b : Box)
      → get e.link_id b.links ≡ some l
      → (deliver_event trim show clock deliver reread now (id, e) s b).thrown ≡ none
      → is_owner id token (deliver_event trim show clock deliver reread now (id, e) s b).box ≡ false
  deliver_event_leaves_no_claim now id token e l s b n quiet =
      ground (arith, (deliver_event-IsThrough now id token e l s b n).free, quiet)
