-- ===== src/Worker.antt =====
-- lib/workstreams/worker.ts: one pass of the worker that delivers the outbox's events, and what it
-- queues for a task. `deliver` and `reconcile` are the options of a pass (`deliver` gives nothing
-- where it throws); each returns the box as it is when its promise resolves, since other calls write
-- to the box meanwhile. `reread` is the second look at the remote state, which a pass with an own
-- `deliver` has not. `clock` is the time at which an event is settled.
-- The counter of running work (lib/idle.ts), which a pass raises and lowers, is left out.
pub mod Retry
pub mod Counting
pub mod Once
pub mod Queueing
pub mod Settling
use operator_oss.Base.{
  ℕ, zero, suc, ◌+◌, ◌-◌, ◌*◌, ◌≤◌, ◌≡◌, Bool, true, false, not, ◌&&◌, ◌||◌, Option, none, some,
  List, [], ◌∷◌, ◌++◌, String, str_eq, if◌then◌else◌, leb, ltb, ◌==◌, length,
}
use Prim.Native.String.{◌++◌ as append}
use operator_oss.Maps.{get}
use operator_oss.Outbox.{
  Box, Event, Link, LinkState, Result, ok, err, Error, is_active, is_disconnected,
  claim_due_workstream_events,
}
use operator_oss.Outbox.Changes.{
  release_workstream_claim, mark_workstream_delivered, mark_workstream_failed, set_workstream_state,
  list_workstream_links,
}

abbrev pub max_attempts : ℕ
max_attempts = 5

abbrev pub retry_base_ms : ℕ
retry_base_ms = 5000

abbrev pub retry_max_ms : ℕ
retry_max_ms = 300000

-- Number.MAX_SAFE_INTEGER
abbrev pub never_retry : ℕ
never_retry = 9007199254740991

pub data RemoteState : Type 0 where
  activating remote_active remote_paused remote_disconnected : RemoteState

pub record Failure : Type 0 where
  pub retryable : Bool
  pub category : String
  pub status : Option ℕ
  pub remote_state : Option RemoteState

pub data BridgeResult : Type 0 where
  sent : BridgeResult
  refused : Failure → BridgeResult

pub record Summary : Type 0 where
  pub claimed : ℕ
  pub delivered : ℕ
  pub retried : ℕ
  pub permanently_failed : ℕ

abbrev no_events : Summary
no_events = record { claimed = 0; delivered = 0; retried = 0; permanently_failed = 0 }

-- The pass so far; it ends where a call throws.
pub record Pass : Type 0 where
  pub box : Box
  pub summary : Summary
  pub thrown : Option Error

unfoldable pub pow2 : ℕ → ℕ
pow2 zero = 1
pow2 (suc n) = 2 * pow2 n

unfoldable pub retry_delay : ℕ → ℕ
unfolding pow2
retry_delay attempts =
    let delay = retry_base_ms * pow2 (attempts - 1) in
    if ltb delay retry_max_ms then delay else retry_max_ms

abbrev pub local_state_for_remote : RemoteState → LinkState
local_state_for_remote remote_active = LinkState.active
local_state_for_remote remote_disconnected = LinkState.disconnected
local_state_for_remote _ = LinkState.paused

abbrev same_state : LinkState → LinkState → Bool
same_state LinkState.active LinkState.active = true
same_state LinkState.paused LinkState.paused = true
same_state LinkState.disconnected LinkState.disconnected = true
same_state _ _ = false

abbrev is_remote_active : RemoteState → Bool
is_remote_active remote_active = true
is_remote_active _ = false

abbrev pub unexpected : Failure
unexpected = record { retryable = true; category = "network"; status = none; remote_state = none }

abbrev pub is_halted : RemoteState → Bool
is_halted remote_active = false
is_halted _ = true

-- What the pass makes of a delivery that threw.
abbrev pub result_of : Option BridgeResult → BridgeResult
result_of none = refused unexpected
result_of (some r) = r

abbrev pub gives_up : Failure → Event → Bool
gives_up f e = not f.retryable || leb max_attempts e.attempts

abbrev end_with : {A : Type 0} → Result A → Box → Summary → Pass
end_with (ok b x) _ s = record { box = b; summary = s; thrown = none }
end_with (err e) b s = record { box = b; summary = s; thrown = some e }

-- The text kept with a failed event; `show` writes a number.
unfoldable pub stored_failure : (ℕ → String) → Failure → String
stored_failure show f = elim f.status [
  | none ↦ f.category
  | some status ↦
      if status == 0 then f.category else append f.category (append " (" (append (show status) ")"))
]

module _ (trim : String → String) (show : ℕ → String) (clock : String → ℕ) where
  unfoldable pub release_event : ℕ → String → Event → Summary → Box → Pass
  release_event now id e s b =
      end_with (release_workstream_claim trim id e.claim_token now (clock id) b) b s

  -- Where the failure is that the remote workstream is not active.
  unfoldable pub pause_event : ℕ → String → Event → RemoteState → Summary → Box → Pass
  unfolding release_event
  pause_event now id e remote s b =
      elim (set_workstream_state e.link_id (local_state_for_remote remote) (clock id) b) [
        | ok b' l ↦ release_event now id e s b'
        | err x ↦ record { box = b; summary = s; thrown = some x }
      ]

  abbrev fail_count : Bool → Summary → Summary
  fail_count true s = record s { permanently_failed = s.permanently_failed + 1 }
  fail_count false s = record s { retried = s.retried + 1 }

  unfoldable pub fail_event : ℕ → String → Event → Failure → Summary → Box → Pass
  fail_event now id e f s b =
      elim (mark_workstream_failed trim id e.claim_token (stored_failure show f)
        (if gives_up f e then never_retry else (now + retry_delay e.attempts)) (clock id) b) [
          | ok b' x ↦ record { box = b'; summary = fail_count (gives_up f e) s; thrown = none }
          | err x ↦ record { box = b; summary = s; thrown = some x }
        ]

  -- A failure, with what is known of the remote workstream's state where it is about that.
  unfoldable pub refuse_event :
      ℕ → String → Event → Failure → Option RemoteState → Summary → Box → Pass
  unfolding pause_event fail_event
  refuse_event now id e f none s b = fail_event now id e f s b
  refuse_event now id e f (some remote) s b =
      if is_halted remote then pause_event now id e remote s b else fail_event now id e f s b

  unfoldable pub find_remote :
      Option (Link → Box → Box × Option RemoteState)
      → Failure
      → Link
      → Box
      → Box × Option RemoteState
  find_remote reread f l b =
      if str_eq f.category "state"
      then elim f.remote_state [
        | some remote ↦ (b, some remote)
        | none ↦ elim reread [ none ↦ (b, none) | some look ↦ look l b ]
      ]
      else (b, none)

  unfoldable pub send_event : String → Event → Summary → Box → Pass
  send_event id e s b = elim (mark_workstream_delivered trim id e.claim_token (clock id) b) [
    | ok b' x ↦ record {
      box = b';
      summary = record s { delivered = s.delivered + 1 };
      thrown = none;
    }
    | err x ↦ record { box = b; summary = s; thrown = some x }
  ]

  -- What the delivery of one event, whose link is `l`, came to.
  unfoldable pub settle_event :
      Option (Link → Box → Box × Option RemoteState)
      → ℕ
      → String
      → Event
      → Link
      → Summary
      → BridgeResult
      → Box
      → Pass
  unfolding send_event refuse_event find_remote
  settle_event reread now id e l s sent b = send_event id e s b
  settle_event reread now id e l s (refused f) b =
      let (b', found) = find_remote reread f l b in refuse_event now id e f found s b'

  module _ (deliver : Link → String × Event → Box → Box × Option BridgeResult)
      (reread : Option (Link → Box → Box × Option RemoteState)) where
    -- One turn of the loop.
    unfoldable pub deliver_event : ℕ → String × Event → Summary → Box → Pass
    unfolding settle_event release_event
    deliver_event now (id, e) s b = elim (get e.link_id b.links) [
      | none ↦ record { box = b; summary = s; thrown = none }
      | some l ↦
          if is_active l.state
          then (let (b', r) = deliver l (id, e) b in
              settle_event reread now id e l s (result_of r) b')
          else release_event now id e s b
    ]

    unfoldable pub deliver_events : ℕ → List (String × Event) → Summary → Box → Pass
    unfolding deliver_event
    deliver_events now [] s b = record { box = b; summary = s; thrown = none }
    deliver_events now (r ∷ rows) s b =
        let p = deliver_event now r s b in
        let rest = deliver_events now rows p.summary p.box in
        elim p.thrown [ none ↦ rest | some x ↦ p ]

    -- One link of eligibleLinksAfterReconciliation: whether it is eligible, or what was thrown. A
    -- reconciliation that throws (none) or fails (some none) leaves the link out.
    unfoldable pub reconcile_link :
        (String × Link → Box → Box × Option (Option RemoteState))
        → String × Link
        → Box
        → Box × (Bool × Option Error)
    reconcile_link reconcile (id, l) b =
        if is_disconnected l.state
        then (b, (false, none))
        else (let (b', r) = reconcile (id, l) b in
            elim r [
              | none ↦ (b', (false, none))
              | some answer ↦ elim answer [
                | none ↦ (b', (false, none))
                | some remote ↦
                    if same_state (local_state_for_remote remote) l.state
                    then (b', (is_remote_active remote, none))
                    else elim (set_workstream_state id (local_state_for_remote remote) (clock id)
                        b') [
                          | ok b'' l' ↦ (b'', (is_remote_active remote, none))
                          | err x ↦ (b', (false, some x))
                        ]
              ]
            ])

    unfoldable pub eligible_links :
        (String × Link → Box → Box × Option (Option RemoteState))
        → List (String × Link)
        → Box
        → Box × (List String × Option Error)
    unfolding reconcile_link
    eligible_links reconcile [] b = (b, ([], none))
    eligible_links reconcile (r ∷ links) b =
        let (b', (keeps, x)) = reconcile_link reconcile r b in
        let (b'', (ids, y)) = eligible_links reconcile links b' in
        elim x [
          | some error ↦ (b', ([], some error))
          | none ↦ (b'', ((if keeps then r.0 ∷ ids else ids), y))
        ]

    unfoldable pub claim_and_deliver : ℕ → ℕ → (ℕ → String) → Option (List String) → Box → Pass
    unfolding deliver_events
    claim_and_deliver now limit token eligible b =
        let (b', rows) = claim_due_workstream_events now limit eligible token b in
        deliver_events now rows
          (record { claimed = length rows; delivered = 0; retried = 0; permanently_failed = 0 }) b'

    unfoldable pub run_workstream_worker_once :
        ℕ
        → ℕ
        → (ℕ → String)
        → Option (String × Link → Box → Box × Option (Option RemoteState))
        → Box
        → Pass
    unfolding claim_and_deliver eligible_links
    run_workstream_worker_once now limit token none b = claim_and_deliver now limit token none b
    run_workstream_worker_once now limit token (some reconcile) b =
        let (b', (eligible, x)) = eligible_links reconcile (list_workstream_links b) b in
        elim x [
          | none ↦ claim_and_deliver now limit token (some eligible) b'
          | some error ↦ record { box = b'; summary = no_events; thrown = some error }
        ]
