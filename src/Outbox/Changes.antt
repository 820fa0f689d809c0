-- ===== src/Outbox/Changes.antt =====
-- lib/workstreams/store.ts: releasing and settling a claim, enqueuing, and the links.
use operator_oss.Base.{
  ℕ, ◌-◌, Bool, false, not, ◌&&◌, ◌||◌, ltb, ◌==◌, ◌||◌, Option, none, some, List, [], ◌∷◌, String,
  str_eq, if◌then◌else◌, is_some,
}
use operator_oss.Maps.{get, set}
use operator_oss.Outbox.{
  Box, Event, pending, delivered, failed, Link, LinkState, Result, ok, err, required, not_owner,
  not_delivering, event_not_found, link_not_found, link_disconnected, needs_activation,
  other_workstream, not_serializable, constraint_failed, is_delivering, is_disconnected, put_event,
  text_leb, active,
}

-- The UPDATE … WHERE id = ? AND state = 'delivering' AND claim_token = ?, and what its callers throw
-- where it changed no row.
unfoldable pub settle_claim : String → String → (Event → Event) → Box → Result Event
settle_claim id token g b = elim (get id b.events) [
  | none ↦ err event_not_found
  | some e ↦
      if is_delivering e.state
      then (if str_eq e.claim_token token then ok (put_event id (g e) b) (g e) else err not_owner)
      else err not_delivering
]

abbrev pub released : ℕ → ℕ → Event → Event
released now next e = record e {
  state = pending;
  attempts = e.attempts - 1;
  next_attempt_at = next;
  claim_expires_at = 0;
  claim_token = "";
  last_error = "";
  updated_at = now;
}

abbrev pub mark_delivered : ℕ → Event → Event
mark_delivered now e = record e {
  state = delivered;
  delivered_at = now;
  claim_expires_at = 0;
  claim_token = "";
  last_error = "";
  updated_at = now;
}

abbrev pub mark_failed : ℕ → String → ℕ → Event → Event
mark_failed now message next e = record e {
  state = failed;
  last_error = message;
  next_attempt_at = next;
  claim_expires_at = 0;
  claim_token = "";
  updated_at = now;
}

-- A row by its idempotency key.
unfoldable pub find_key : String → List (String × Event) → Option (String × Event)
find_key key [] = none
find_key key ((id, e) ∷ rows) =
    if str_eq e.idempotency_key key then some (id, e) else find_key key rows

unfoldable pub find_card : String → String → List (String × Link) → Option (String × Link)
find_card provider card [] = none
find_card provider card ((id, l) ∷ rows) =
    if str_eq l.provider provider && str_eq l.external_card_id card
    then some (id, l)
    else find_card provider card rows

find_task : String → List (String × Link) → Bool
find_task task [] = false
find_task task ((id, l) ∷ rows) = str_eq l.task_id task || find_task task rows

-- ORDER BY created_at ASC, id ASC.
insert_link : String × Link → List (String × Link) → List (String × Link)
insert_link r [] = r ∷ []
insert_link (i, x) ((j, y) ∷ links) =
    let rest = insert_link (i, x) links in
    if ltb x.created_at y.created_at || (x.created_at == y.created_at && text_leb i j)
    then (i, x) ∷ ((j, y) ∷ links)
    else (j, y) ∷ rest

unfoldable pub order_links : List (String × Link) → List (String × Link)
unfolding insert_link
order_links [] = []
order_links (r ∷ links) = insert_link r (order_links links)

unfoldable pub list_workstream_links : Box → List (String × Link)
unfolding order_links
list_workstream_links b = order_links b.links

unfoldable pub set_workstream_state : String → LinkState → ℕ → Box → Result Link
set_workstream_state id state now b = elim (get id b.links) [
  | none ↦ err link_not_found
  | some l ↦
      if is_disconnected l.state && not (is_disconnected state)
      then err needs_activation
      else (let l' = record l { state = state; updated_at = now } in
          ok (record b { links = set id l' b.links }) l')
]

or_now : Option ℕ → ℕ → ℕ
or_now none now = now
or_now (some n) now = n

-- The row that the INSERT writes; the columns it leaves out have their defaults.
unfoldable pub new_event : String → String → String → String → Option ℕ → ℕ → Event
unfolding or_now
new_event link_id key event_type text next_attempt_at now = record {
  link_id = link_id;
  idempotency_key = key;
  event_type = event_type;
  payload = text;
  state = pending;
  attempts = 0;
  next_attempt_at = or_now next_attempt_at now;
  claim_expires_at = 0;
  claim_token = "";
  last_error = "";
  delivered_at = 0;
  created_at = now;
  updated_at = now;
}

module _ (trim : String → String) where
  -- `requireValue`, then the rest of the call.
  abbrev with_value : {A : Type 0} → String → String → (String → Result A) → Result A
  with_value value name f = if str_eq (trim value) "" then err (required name) else f (trim value)

  unfoldable pub release_workstream_claim : String → String → ℕ → ℕ → Box → Result Event
  unfolding settle_claim
  release_workstream_claim id claim_token next now b =
      with_value claim_token "claimToken" (λ token. settle_claim id token (released now next) b)

  unfoldable pub mark_workstream_delivered : String → String → ℕ → Box → Result Event
  unfolding settle_claim
  mark_workstream_delivered id claim_token now b =
      with_value claim_token "claimToken" (λ token. settle_claim id token (mark_delivered now) b)

  unfoldable pub mark_workstream_failed : String → String → String → ℕ → ℕ → Box → Result Event
  unfolding settle_claim
  mark_workstream_failed id claim_token message next now b =
      with_value claim_token "claimToken"
        (λ token. settle_claim id token (mark_failed now message next) b)

  -- The transaction of enqueueWorkstreamEvent.
  unfoldable pub enqueue_row :
      String
      → String
      → String
      → Option String
      → Option ℕ
      → String
      → ℕ
      → Box
      → Result (String × Event)
  enqueue_row link_id key event_type payload next_attempt_at id now b =
      elim (find_key key b.events) [
        | some (old, e) ↦ if str_eq e.link_id link_id then ok b (old, e) else err other_workstream
        | none ↦ elim (get link_id b.links) [
          | none ↦ err link_not_found
          | some l ↦ if is_disconnected l.state then err link_disconnected else elim payload [
            | none ↦ err not_serializable
            | some text ↦
                let e = new_event link_id key event_type text next_attempt_at now in
                if is_some (get id b.events)
                then err constraint_failed
                else ok (put_event id e b) (id, e)
          ]
        ]
      ]

  unfoldable pub enqueue_workstream_event :
      String
      → String
      → String
      → Option String
      → Option ℕ
      → String
      → ℕ
      → Box
      → Result (String × Event)
  unfolding enqueue_row
  enqueue_workstream_event link_id key event_type payload next_attempt_at id now b =
      with_value link_id "linkId" (λ link.
        with_value key "idempotencyKey"
          (λ k. enqueue_row link k event_type payload next_attempt_at id now b))

  or_active : Option LinkState → LinkState
  or_active none = active
  or_active (some state) = state

  -- A new link's task must exist and have no other link.
  unfoldable pub activate_workstream :
      String
      → String
      → String
      → String
      → Option LinkState
      → (String → Bool)
      → String
      → ℕ
      → Box
      → Result Link
  unfolding find_task or_active
  activate_workstream task_id provider card workstream initial task_exists id now b =
      with_value task_id "taskId" (λ task. with_value provider "provider" (λ p.
        with_value card "externalCardId" (λ c. with_value workstream "externalWorkstreamId" (λ ws.
          elim (find_card p c b.links) [
            | some (old, l) ↦
                let l' = record l {
                  external_workstream_id = ws;
                  state = or_active initial;
                  updated_at = now;
                } in
                ok (record b { links = set old l' b.links }) l'
            | none ↦
                let l : Link = record {
                  task_id = task;
                  provider = p;
                  external_card_id = c;
                  external_workstream_id = ws;
                  state = or_active initial;
                  created_at = now;
                  updated_at = now;
                } in
                if task_exists task
                  && not (find_task task b.links)
                  && not (is_some (get id b.links))
                then ok (record b { links = set id l b.links }) l
                else err constraint_failed
          ]))))
