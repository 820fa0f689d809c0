-- ===== src/Outbox/Delivery.antt =====
-- lib/workstreams/store.ts: settling a claim, and what can become of a row afterwards.
use operator_oss.Base.{
  ℕ, ◌+◌, ◌≡◌, ◌⊎◌, refl, inl, inr, Bool, true, false, not, ◌&&◌, Option, none, some, List, [], ◌∷◌,
  String, str_eq, eq_iff, arith, Bool-cases, Option-cases,
}
use operator_oss.Maps.{get, set, get-set}
use operator_oss.Outbox.{
  Box, Error, Event, pending, delivered, Result, ok, err, not_owner, is_delivering, claimed, is_due,
  claim_row, claim_rows, claim_workstream_event, select_due, claim_due_workstream_events,
}
use operator_oss.Outbox.Changes.{
  settle_claim, released, mark_delivered, mark_failed, release_workstream_claim,
  mark_workstream_delivered, mark_workstream_failed,
}

-- The row of `id` is delivering under this token.
abbrev pub is_owner : String → String → Box → Bool
is_owner id token b = elim (get id b.events) [
  | none ↦ false
  | some e ↦ is_delivering e.state && str_eq e.claim_token token
]

abbrev pub is_ok : {A : Type 0} → Result A → Bool
is_ok (ok b x) = true
is_ok (err e) = false

pub Result-cases :
    {A : Type 0} (r : Result A) → ((b : Box) × (x : A) × (r ≡ ok b x)) ⊎ ((e : Error) × (r ≡ err e))
Result-cases (ok b x) = inl (b, x, refl)
Result-cases (err e) = inr (e, refl)

settle_claim_ok :
    (id token : String) (g : Event → Event) (b : Box)
    → is_ok (settle_claim id token g b) ≡ is_owner id token b
unfolding settle_claim
settle_claim_ok id token g b = ground arith

module _ (trim : String → String) where
  -- The three ways to settle a claim succeed on the same rows, those that are delivering under the
  -- trimmed token, and an empty token never succeeds.
  pub settle_succeeds :
      (id token message : String) (next now : ℕ) (b : Box)
      → (is_ok (mark_workstream_delivered trim id token now b)
          ≡ (not (str_eq (trim token) "") && is_owner id (trim token) b))
        × (is_ok (mark_workstream_failed trim id token message next now b)
            ≡ (not (str_eq (trim token) "") && is_owner id (trim token) b))
        × (is_ok (release_workstream_claim trim id token next now b)
            ≡ (not (str_eq (trim token) "") && is_owner id (trim token) b))
  unfolding mark_workstream_delivered mark_workstream_failed release_workstream_claim
  settle_succeeds id token message next now b = elim (Bool-cases (str_eq (trim token) "")) [
    | inl e ↦ ground arith
    | inr e ↦ ground (
      arith,
      settle_claim_ok id (trim token) (mark_delivered now) b,
      settle_claim_ok id (trim token) (mark_failed now message next) b,
      settle_claim_ok id (trim token) (released now next) b,
    )
  ]

  -- A delivery that was claimed again under another token is no longer its first owner's: once the
  -- lease has run out and the row was claimed anew, the first owner can settle it in no way.
  pub stale_owner_refused :
      (id first second : String) (now next later : ℕ) (message : String) (b : Box) (e : Event)
      → get id b.events ≡ some e
      → is_due now e ≡ true
      → str_eq (trim first) "" ≡ false
      → str_eq second (trim first) ≡ false
      → (mark_workstream_delivered trim id first later (claim_row id now second b) ≡ err not_owner)
        × (mark_workstream_failed trim id first message next later (claim_row id now second b)
            ≡ err not_owner)
        × (release_workstream_claim trim id first next later (claim_row id now second b)
            ≡ err not_owner)
  unfolding claim_row settle_claim mark_workstream_delivered mark_workstream_failed
      release_workstream_claim
  stale_owner_refused id first second now next later message b e f due t other =
      ground (arith, get-set id id (claimed now second e) b.events, eq_iff id id)

-- The writes of the outbox after a row is queued.
pub data Op : Type 0 where
  claim_due_op : ℕ → ℕ → Option (List String) → (ℕ → String) → Op
  claim_op : String → ℕ → String → Op
  delivered_op : String → String → ℕ → Op
  failed_op : String → String → String → ℕ → ℕ → Op
  release_op : String → String → ℕ → ℕ → Op

-- A call that throws leaves the box as it was.
abbrev pub box_of : {A : Type 0} → Box → Result A → Box
box_of b (ok b' x) = b'
box_of b (err e) = b

module _ (trim : String → String) where
  unfoldable pub apply : Op → Box → Box
  apply (claim_due_op now limit eligible token) b =
      (claim_due_workstream_events now limit eligible token b).0
  apply (claim_op id now token) b = (claim_workstream_event id now token b).0
  apply (delivered_op id token now) b = box_of b (mark_workstream_delivered trim id token now b)
  apply (failed_op id token message next now) b =
      box_of b (mark_workstream_failed trim id token message next now b)
  apply (release_op id token next now) b =
      box_of b (release_workstream_claim trim id token next now b)

  unfoldable pub run_ops : List Op → Box → Box
  unfolding apply
  run_ops [] b = b
  run_ops (o ∷ os) b = run_ops os (apply o b)

  settle_claim-delivered :
      (id i token : String) (g : Event → Event) (b : Box) (e : Event)
      → get i b.events ≡ some e
      → e.state ≡ delivered
      → get i (box_of b (settle_claim id token g b)).events ≡ some e
  unfolding settle_claim
  settle_claim-delivered id i token g b e f s = elim (Option-cases (get id b.events)) [
    | inl n ↦ ground (arith, n, f)
    | inr (x, h) ↦ ground (arith, h, get-set id i (g x) b.events, eq_iff id i)
  ]

  claim_workstream_event-delivered :
      (id i token : String) (now : ℕ) (b : Box) (e : Event)
      → get i b.events ≡ some e
      → e.state ≡ delivered
      → get i (claim_workstream_event id now token b).0.events ≡ some e
  unfolding claim_workstream_event
  claim_workstream_event-delivered id i token now b e f s = elim (Option-cases (get id b.events)) [
    | inl n ↦ ground arith
    | inr (x, h) ↦ ground (arith, h, get-set id i (claimed now token x) b.events, eq_iff id i)
  ]

  claim_row-delivered :
      (id i token : String) (now : ℕ) (b : Box) (e : Event)
      → get i b.events ≡ some e
      → e.state ≡ delivered
      → get i (claim_row id now token b).events ≡ some e
  unfolding claim_row
  claim_row-delivered id i token now b e f s = elim (Option-cases (get id b.events)) [
    | inl n ↦ ground arith
    | inr (x, h) ↦ ground (arith, h, get-set id i (claimed now token x) b.events, eq_iff id i)
  ]

  claim_rows-delivered :
      (rows : List (String × Event)) (i : String) (now n : ℕ) (token : ℕ → String) (b : Box)
      (e : Event)
      → get i b.events ≡ some e
      → e.state ≡ delivered
      → get i (claim_rows now token n rows b).events ≡ some e
  unfolding claim_rows
  claim_rows-delivered [] i now n token b e f s = f
  claim_rows-delivered ((id, x) ∷ rows) i now n token b e f s =
      claim_rows-delivered rows i now (n + 1) token (claim_row id now (token n) b) e
        (claim_row-delivered id i (token n) now b e f s) s

  apply-delivered :
      (o : Op) (i : String) (b : Box) (e : Event)
      → get i b.events ≡ some e
      → e.state ≡ delivered
      → get i (apply o b).events ≡ some e
  unfolding apply claim_due_workstream_events mark_workstream_delivered mark_workstream_failed
      release_workstream_claim
  apply-delivered (claim_due_op now limit eligible token) i b e f s =
      claim_rows-delivered (select_due now limit eligible b) i now 0 token b e f s
  apply-delivered (claim_op id now token) i b e f s =
      claim_workstream_event-delivered id i token now b e f s
  apply-delivered (delivered_op id token now) i b e f s =
      elim (Bool-cases (str_eq (trim token) "")) [
        | inl t ↦ rw t f
        | inr t ↦ rw t (settle_claim-delivered id i (trim token) (mark_delivered now) b e f s)
      ]
  apply-delivered (failed_op id token message next now) i b e f s =
      elim (Bool-cases (str_eq (trim token) "")) [
        | inl t ↦ rw t f
        | inr t ↦
            rw t (settle_claim-delivered id i (trim token) (mark_failed now message next) b e f s)
      ]
  apply-delivered (release_op id token next now) i b e f s =
      elim (Bool-cases (str_eq (trim token) "")) [
        | inl t ↦ rw t f
        | inr t ↦ rw t (settle_claim-delivered id i (trim token) (released now next) b e f s)
      ]

  -- A delivered event stays as it is: no sequence of single claims, claims of a batch,
  -- deliveries, failures and releases, on this row or on others, changes it.
  pub run_ops-delivered :
      (os : List Op) (i : String) (b : Box) (e : Event)
      → get i b.events ≡ some e
      → e.state ≡ delivered
      → get i (run_ops os b).events ≡ some e
  unfolding run_ops
  run_ops-delivered [] i b e f s = f
  run_ops-delivered (o ∷ os) i b e f s =
      run_ops-delivered os i (apply o b) e (apply-delivered o i b e f s) s

  -- The claim of a due row that its owner releases leaves the row pending, with no owner and no lease,
  -- whichever state it was claimed from. Its attempts are those before the claim, the last error is
  -- cleared, the times are those of the release, nothing else changes, and the row is due again at the
  -- time that it was released to.
  pub release_undoes_claim :
      (id token : String) (now next later : ℕ) (b : Box) (e : Event)
      → get id b.events ≡ some e
      → is_due now e ≡ true
      → str_eq token "" ≡ false
      → trim token ≡ token
      → (get id
            (box_of
              (claim_row id now token b)
              (release_workstream_claim trim id token next later (claim_row id now token b))).events
          ≡ some (released later next (claimed now token e)))
        × (released later next (claimed now token e) ≡ record e {
          state = pending;
          next_attempt_at = next;
          claim_expires_at = 0;
          claim_token = "";
          last_error = "";
          updated_at = later;
        })
        × (is_due next (released later next (claimed now token e)) ≡ true)
  unfolding claim_row settle_claim release_workstream_claim
  release_undoes_claim id token now next later b e f due t same = (
    ground (
      arith,
      same,
      get-set id id (claimed now token e) b.events,
      get-set id id (released later next (claimed now token e))
          (set id (claimed now token e) b.events),
      eq_iff id id,
      eq_iff token token,
    ),
    ground arith,
    ground arith,
  )
