-- ===== src/Worker/Retry.antt =====
-- lib/workstreams/worker.ts: when a delivery that failed is tried again, and that it stops.
use operator_oss.Base.{
  ℕ, zero, suc, ◌+◌, ◌*◌, ◌≤◌, ◌≡◌, refl, true, false, ◌&&◌, none, some, String, str_eq, eq_iff,
  if◌then◌else◌, is_some, leb, ltb, arith,
}
use operator_oss.Maps.{get, get-set}
use operator_oss.Outbox.{Box, Event, is_delivering, link_active, claim_workstream_event}
use operator_oss.Outbox.Changes.{settle_claim, mark_failed, mark_workstream_failed}
use operator_oss.Worker.{
  retry_delay, retry_base_ms, retry_max_ms, pow2, never_retry, Failure, Summary, gives_up,
  fail_event, stored_failure,
}

pow2_positive : (n : ℕ) → 1 ≤ pow2 n
unfolding pow2
pow2_positive zero = omega arith
pow2_positive (suc n) = omega (arith, pow2_positive n)

-- The delay before the next attempt starts at its base, and doubles with each attempt until it would
-- pass its maximum, where it stays.
pub retry_delay_doubles :
    (n : ℕ)
    → (retry_delay 1 ≡ retry_base_ms)
      × (retry_base_ms ≤ retry_delay (suc n))
      × (retry_delay (suc n) ≤ retry_max_ms)
      × (retry_delay (suc (suc n)) ≡ (
          if ltb (2 * retry_delay (suc n)) retry_max_ms
          then 2 * retry_delay (suc n)
          else retry_max_ms))
unfolding retry_delay pow2
retry_delay_doubles n = (
  refl,
  ground (arith, pow2_positive n),
  ground (arith, pow2_positive n),
  ground (arith, pow2_positive n),
)

-- When a failed event is due again.
abbrev pub retry_at : ℕ → Event → Failure → ℕ
retry_at now e f = if gives_up f e then never_retry else (now + retry_delay e.attempts)

module _ (trim : String → String) (show : ℕ → String) (clock : String → ℕ) where
  -- After a failure is recorded for a row that the pass still owns, a claim takes the row exactly
  -- when its link is active and its time has come: the retry delay after the pass, or, when the
  -- failure is not retryable or the attempts are used up, the largest safe integer.
  pub fail_event_schedules :
      (now later : ℕ) (id token : String) (e x : Event) (f : Failure) (s : Summary) (b : Box)
      → get id b.events ≡ some x
      → (is_delivering x.state && str_eq x.claim_token (trim e.claim_token)) ≡ true
      → str_eq (trim e.claim_token) "" ≡ false
      → ((fail_event trim show clock now id e f s b).thrown ≡ none)
        × (is_some
              (claim_workstream_event id later token
                (fail_event trim show clock now id e f s b).box).1
            ≡ (link_active x.link_id b && leb (retry_at now e f) later))
  unfolding fail_event mark_workstream_failed settle_claim claim_workstream_event
  fail_event_schedules now later id token e x f s b found owned t =
      let x' = mark_failed (clock id) (stored_failure show f) (retry_at now e f) x in
      ground (arith, get-set id id x' b.events, eq_iff id id)
