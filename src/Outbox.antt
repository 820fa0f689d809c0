-- ===== src/Outbox.antt =====
-- lib/workstreams/store.ts: the links between tasks and tracker cards, and the outbox of events for
-- them. Rows are kept by their primary key; ids and claim tokens (nanoid) and the time are arguments.
-- `String.prototype.trim` is a parameter. A payload is its JSON text, or nothing where it has none.
pub mod Changes
pub mod Claims
pub mod Delivery
pub mod Enqueue
use Prim.Native.Nat.{Ordering}
use Prim.Native.String.{compare}
use operator_oss.Base.{
  ℕ, ◌+◌, ◌-◌, Bool, true, false, not, ◌&&◌, ◌||◌, Option, none, some, List, [], ◌∷◌, ◌++◌, String,
  str_eq, ◌==◌, leb, ltb, if◌then◌else◌, is_some, filter, take,
}
use operator_oss.Maps.{get, set}

pub data LinkState : Type 0 where
  active paused disconnected : LinkState

pub record Link : Type 0 where
  pub task_id : String
  pub provider : String
  pub external_card_id : String
  pub external_workstream_id : String
  pub state : LinkState
  pub created_at : ℕ
  pub updated_at : ℕ

pub data EventState : Type 0 where
  pending delivering delivered failed : EventState

pub record Event : Type 0 where
  pub link_id : String
  pub idempotency_key : String
  pub event_type : String
  pub payload : String
  pub state : EventState
  pub attempts : ℕ
  pub next_attempt_at : ℕ
  pub claim_expires_at : ℕ
  pub claim_token : String
  pub last_error : String
  pub delivered_at : ℕ
  pub created_at : ℕ
  pub updated_at : ℕ

pub record Box : Type 0 where
  pub links : List (String × Link)
  pub events : List (String × Event)

pub data Error : Type 0 where
  required : String → Error
  not_owner not_delivering event_not_found : Error
  link_not_found link_disconnected needs_activation : Error
  other_workstream not_serializable constraint_failed : Error

pub data Result (A : Type 0) : Type 0 where
  ok : Box → A → Result A
  err : Error → Result A

abbrev pub claim_lease_ms : ℕ
claim_lease_ms = 60000

abbrev pub is_active : LinkState → Bool
is_active active = true
is_active _ = false

abbrev pub is_disconnected : LinkState → Bool
is_disconnected disconnected = true
is_disconnected _ = false

abbrev pub is_delivering : EventState → Bool
is_delivering delivering = true
is_delivering _ = false

-- (state IN ('pending', 'failed') AND next_attempt_at <= ?)
-- OR (state = 'delivering' AND claim_expires_at <= ?)
abbrev pub is_due : ℕ → Event → Bool
is_due now e = elim e.state [
  | pending ↦ leb e.next_attempt_at now
  | failed ↦ leb e.next_attempt_at now
  | delivering ↦ leb e.claim_expires_at now
  | delivered ↦ false
]

abbrev pub link_active : String → Box → Bool
link_active id b = elim (get id b.links) [ none ↦ false | some l ↦ is_active l.state ]

abbrev pub claimed : ℕ → String → Event → Event
claimed now token e = record e {
  state = delivering;
  attempts = e.attempts + 1;
  claim_expires_at = now + claim_lease_ms;
  claim_token = token;
  updated_at = now;
}

abbrev pub put_event : String → Event → Box → Box
put_event id e b = record b { events = set id e b.events }

-- The UPDATE of one claim in claimDueWorkstreamEvents: the link was checked by the SELECT.
unfoldable pub claim_row : String → ℕ → String → Box → Box
claim_row id now token b = elim (get id b.events) [
  | none ↦ b
  | some e ↦ if is_due now e then put_event id (claimed now token e) b else b
]

unfoldable pub claim_workstream_event : String → ℕ → String → Box → Box × Option Event
claim_workstream_event id now token b = elim (get id b.events) [
  | none ↦ (b, none)
  | some e ↦
      if link_active e.link_id b && is_due now e
      then (put_event id (claimed now token e) b, some (claimed now token e))
      else (b, none)
]

-- ORDER BY next_attempt_at ASC, created_at ASC, id ASC.
abbrev pub text_leb : String → String → Bool
text_leb a b = elim (compare a b) [ Ordering.gt ↦ false | _ ↦ true ]

abbrev pub comes_first : String × Event → String × Event → Bool
comes_first (i, x) (j, y) =
    ltb x.next_attempt_at y.next_attempt_at
    || (x.next_attempt_at == y.next_attempt_at
        && (ltb x.created_at y.created_at || (x.created_at == y.created_at && text_leb i j)))

unfoldable pub insert_due : String × Event → List (String × Event) → List (String × Event)
insert_due r [] = r ∷ []
insert_due r (x ∷ xs) = if comes_first r x then r ∷ x ∷ xs else x ∷ insert_due r xs

unfoldable pub order_due : List (String × Event) → List (String × Event)
unfolding insert_due
order_due [] = []
order_due (x ∷ xs) = insert_due x (order_due xs)

abbrev pub is_eligible : Option (List String) → String → Bool
is_eligible none id = true
is_eligible (some ids) id = holds ids
  where
    holds : List String → Bool
    holds [] = false
    holds (i ∷ is) = str_eq i id || holds is

unfoldable pub select_due : ℕ → ℕ → Option (List String) → Box → List (String × Event)
unfolding order_due
select_due now limit eligible b = take limit (
    order_due (
      filter
        (λ r. link_active (r.1).link_id b && (is_eligible eligible (r.1).link_id && is_due now r.1))
        b.events))

-- One claim for each selected row, with the tokens in turn.
unfoldable pub claim_rows : ℕ → (ℕ → String) → ℕ → List (String × Event) → Box → Box
unfolding claim_row
claim_rows now token i [] b = b
claim_rows now token i ((id, e) ∷ rows) b =
    claim_rows now token (i + 1) rows (claim_row id now (token i) b)

-- The rows as they are after the claims, with their ids.
unfoldable pub read_rows : List (String × Event) → Box → List (String × Event)
read_rows [] b = []
read_rows ((id, old) ∷ rows) b = elim (get id b.events) [
  | none ↦ read_rows rows b
  | some e ↦ (id, e) ∷ read_rows rows b
]

unfoldable pub claim_due_workstream_events :
    ℕ → ℕ → Option (List String) → (ℕ → String) → Box → Box × List (String × Event)
unfolding select_due claim_rows read_rows
claim_due_workstream_events now limit eligible token b =
    let due = select_due now limit eligible b in
    let b' = claim_rows now token 0 due b in (b', read_rows due b')
