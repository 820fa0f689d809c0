-- ===== src/Worker/Counting.antt =====
-- lib/workstreams/worker.ts: what a pass leaves behind: its counts, and the rows it is through with.
use operator_oss.Base.{
  ℕ, ◌+◌, ◌≤◌, ◌≡◌, refl, ◌∙◌, inl, inr, Option, none, some, List, [], ◌∷◌, String, arith,
  Bool-cases, Option-cases, length,
}
use operator_oss.Maps.{get}
use operator_oss.Outbox.{
  Box, Event, Link, is_active, select_due, read_rows, claim_rows, claim_due_workstream_events,
}
use operator_oss.Outbox.Changes.{list_workstream_links}
use operator_oss.Outbox.Claims.{select_due_bound}
use operator_oss.Worker.{
  RemoteState, Failure, BridgeResult, sent, refused, Summary, release_event, pause_event,
  fail_event, refuse_event, find_remote, send_event, is_halted, result_of, settle_event,
  deliver_event, deliver_events, claim_and_deliver, eligible_links, run_workstream_worker_once,
}

read_rows_bound : (rows : List (String × Event)) (b : Box) → length (read_rows rows b) ≤ length rows
unfolding read_rows
read_rows_bound [] b = omega arith
read_rows_bound ((id, e) ∷ rows) b = elim (Option-cases (get id b.events)) [
  | inl n ↦ rw (n, length) (omega (arith, read_rows_bound rows b))
  | inr (x, n) ↦ rw (n, length) (omega (arith, read_rows_bound rows b))
]

claim_due_bound :
    (now limit : ℕ) (eligible : Option (List String)) (token : ℕ → String) (b : Box)
    → length (claim_due_workstream_events now limit eligible token b).1 ≤ limit
unfolding claim_due_workstream_events
claim_due_bound now limit eligible token b =
    let due = select_due now limit eligible b in
    omega (
      arith,
      read_rows_bound due (claim_rows now token 0 due b),
      select_due_bound now limit eligible b,
    )

-- The events that a pass has settled.
abbrev pub settled : Summary → ℕ
settled s = s.delivered + s.retried + s.permanently_failed

-- At most one more event is settled, and the claims counted stay the same.
record CountsOne (s s' : Summary) : Type 0 where
  bound : settled s' ≤ settled s + 1
  same : s'.claimed ≡ s.claimed

module _ (trim : String → String) (show : ℕ → String) (clock : String → ℕ) where
  release_event_counts :
      (now : ℕ) (id : String) (e : Event) (s : Summary) (b : Box)
      → (release_event trim show clock now id e s b).summary ≡ s
  unfolding release_event
  release_event_counts now id e s b = ground arith

  pause_event_counts :
      (now : ℕ) (id : String) (e : Event) (remote : RemoteState) (s : Summary) (b : Box)
      → (pause_event trim show clock now id e remote s b).summary ≡ s
  unfolding pause_event
  pause_event_counts now id e remote s b = grind (arith, release_event_counts)

  fail_event_counts :
      (now : ℕ) (id : String) (e : Event) (f : Failure) (s : Summary) (b : Box)
      → CountsOne s (fail_event trim show clock now id e f s b).summary
  unfolding fail_event
  fail_event_counts now id e f s b = record { bound = ground arith; same = ground arith }

  refuse_event_counts :
      (now : ℕ) (id : String) (e : Event) (f : Failure) (found : Option RemoteState) (s : Summary)
      (b : Box)
      → CountsOne s (refuse_event trim show clock now id e f found s b).summary
  unfolding refuse_event
  refuse_event_counts now id e f none s b = fail_event_counts now id e f s b
  refuse_event_counts now id e f (some remote) s b = elim (Bool-cases (is_halted remote)) [
    | inl h ↦
        rw (h, pause_event_counts now id e remote s b) (record { bound = omega arith; same = refl })
    | inr h ↦ rw h (fail_event_counts now id e f s b)
  ]

  settle_event_counts :
      (reread : Option (Link → Box → Box × Option RemoteState)) (now : ℕ) (id : String) (e : Event)
      (l : Link) (s : Summary) (r : BridgeResult) (b : Box)
      → CountsOne s (settle_event trim show clock reread now id e l s r b).summary
  unfolding settle_event send_event
  settle_event_counts reread now id e l s sent b = record {
    bound = ground arith;
    same = ground arith;
  }
  settle_event_counts reread now id e l s (refused f) b =
      let at = find_remote trim show clock reread f l b in
      refuse_event_counts now id e f at.1 s at.0

module _ (trim : String → String) (show : ℕ → String) (clock : String → ℕ)
    (deliver : Link → String × Event → Box → Box × Option BridgeResult)
    (reread : Option (Link → Box → Box × Option RemoteState)) where
  deliver_event_counts :
      (now : ℕ) (r : String × Event) (s : Summary) (b : Box)
      → CountsOne s (deliver_event trim show clock deliver reread now r s b).summary
  unfolding deliver_event
  deliver_event_counts now (id, e) s b = elim (Option-cases (get e.link_id b.links)) [
    | inl n ↦ rw (n, deliver_event) (record { bound = omega arith; same = refl })
    | inr (l, n) ↦ elim (Bool-cases (is_active l.state)) [
      | inl h ↦
          rw (n, h, deliver_event)
            (settle_event_counts trim show clock reread now id e l s
              (result_of (deliver l (id, e) b).1) (deliver l (id, e) b).0)
      | inr h ↦
          rw (n, h, deliver_event, release_event_counts trim show clock now id e s b)
            (record { bound = omega arith; same = refl })
    ]
  ]

  deliver_events_counts :
      (now : ℕ) (rows : List (String × Event)) (s : Summary) (b : Box)
      → (settled (deliver_events trim show clock deliver reread now rows s b).summary
          ≤ settled s + length rows)
        × ((deliver_events trim show clock deliver reread now rows s b).summary.claimed ≡ s.claimed)
  unfolding deliver_events
  deliver_events_counts now [] s b = (omega arith, refl)
  deliver_events_counts now (r ∷ rows) s b =
      let p = deliver_event trim show clock deliver reread now r s b in
      let one = deliver_event_counts now r s b in
      let rest = deliver_events_counts now rows p.summary p.box in
      elim (Option-cases p.thrown) [
        | inl n ↦ rw (n, deliver_events) (omega (arith, one.bound, rest.0), rest.1 ∙ one.same)
        | inr (x, n) ↦ rw (n, deliver_events) (omega (arith, one.bound), one.same)
      ]

  claim_and_deliver_counts :
      (now limit : ℕ) (token : ℕ → String) (eligible : Option (List String)) (b : Box)
      → let p = claim_and_deliver trim show clock deliver reread now limit token eligible b in
        (settled p.summary ≤ p.summary.claimed) × (p.summary.claimed ≤ limit)
  unfolding claim_and_deliver
  claim_and_deliver_counts now limit token eligible b =
      let claims = claim_due_workstream_events now limit eligible token b in
      let fresh : Summary = record {
        claimed = length claims.1;
        delivered = 0;
        retried = 0;
        permanently_failed = 0;
      } in
      let counts = deliver_events_counts now claims.1 fresh claims.0 in
      let bound = claim_due_bound now limit eligible token b in
      (omega (arith, counts.0, counts.1), omega (arith, counts.1, bound))

  -- A pass settles no more events than it claimed, and claims no more than its limit, also where it
  -- throws, and whatever the remote side answers.
  pub run_workstream_worker_once_counts :
      (now limit : ℕ) (token : ℕ → String)
      (reconcile : Option (String × Link → Box → Box × Option (Option RemoteState))) (b : Box)
      → let p =
          run_workstream_worker_once trim show clock deliver reread now limit token reconcile b in
        (settled p.summary ≤ p.summary.claimed) × (p.summary.claimed ≤ limit)
  unfolding run_workstream_worker_once
  run_workstream_worker_once_counts now limit token none b =
      claim_and_deliver_counts now limit token none b
  run_workstream_worker_once_counts now limit token (some reconcile) b =
      let links =
        eligible_links trim show clock deliver reread reconcile (list_workstream_links b) b in
      elim (Option-cases (links.1).1) [
        | inl n ↦
            rw (n, run_workstream_worker_once)
              (claim_and_deliver_counts now limit token (some (links.1).0) links.0)
        | inr (x, n) ↦ rw (n, run_workstream_worker_once) (omega arith, omega arith)
      ]
