-- ===== src/Outbox/Enqueue.antt =====
-- lib/workstreams/store.ts: what is queued, and that a key is queued once.
use operator_oss.Base.{
  ℕ, ◌≡◌, refl, sym, subst, ◌∙◌, inl, inr, Option, none, some, List, [], ◌∷◌, String, str_eq,
  eq_iff, if◌then◌else◌, arith, Bool-cases, Option-cases,
}
use operator_oss.Maps.{get, set}
use operator_oss.Outbox.{Box, Event, Result, ok, err, is_disconnected, put_event, other_workstream}
use operator_oss.Outbox.Changes.{new_event, enqueue_row, find_key}

-- Every key stands in one row, the one under its own id.
find_key-set :
    (key id : String) (e : Event) (rows : List (String × Event))
    → get id rows ≡ none
    → find_key key rows ≡ none
    → e.idempotency_key ≡ key
    → find_key key (set id e rows) ≡ some (id, e)
unfolding find_key get set
find_key-set key id e [] h f k = ground (arith, eq_iff key key)
find_key-set key id e ((j, x) ∷ rows) h f k =
    ground (arith, eq_iff key key, eq_iff j id, find_key-set key id e rows)

new_event_key :
    (link key type text : String) (next : Option ℕ) (now : ℕ)
    → (new_event link key type text next now).idempotency_key ≡ key
unfolding new_event
new_event_key link key type text next now = refl

new_event_link :
    (link key type text : String) (next : Option ℕ) (now : ℕ)
    → (new_event link key type text next now).link_id ≡ link
unfolding new_event
new_event_link link key type text next now = refl

abbrev Finds : String → String → Result (String × Event) → Type 0
Finds key link (err e) = Unit
Finds key link (ok b r) = (find_key key b.events ≡ some r) × (r.1.link_id ≡ link)

module _ (trim : String → String) where
  enqueue_row_fresh :
      (link key type text : String) (payload : Option String) (next : Option ℕ) (id : String)
      (now : ℕ) (b b' : Box) (r : String × Event)
      → find_key key b.events ≡ none
      → get id b.events ≡ none
      → payload ≡ some text
      → enqueue_row trim link key type payload next id now b ≡ ok b' r
      → (find_key key b'.events ≡ some r) × (r.1.link_id ≡ link)
  unfolding enqueue_row
  enqueue_row_fresh link key type text payload next id now b b' r f g p h =
      let e : Event = new_event link key type text next now in
      let set_key =
        find_key-set key id e b.events g f (new_event_key link key type text next now) in
      let is_link = new_event_link link key type text next now in
      elim (Option-cases (get link b.links)) [
        | inl n ↦ ground (arith, f, g, p, n)
        | inr (l, n) ↦ elim (Bool-cases (is_disconnected l.state)) [
          | inl d ↦ ground (arith, f, g, p, n, d)
          | inr d ↦
              let out : enqueue_row trim link key type payload next id now b
                  ≡ ok (put_event id e b) (id, e) =
                ground (arith, f, n, d, p, g) in
              subst (Finds key link) (sym out ∙ h) (set_key, is_link)
        ]
      ]

  enqueue_row_finds :
      (link key type : String) (payload : Option String) (next : Option ℕ) (id : String) (now : ℕ)
      (b b' : Box) (r : String × Event)
      → enqueue_row trim link key type payload next id now b ≡ ok b' r
      → (find_key key b'.events ≡ some r) × (r.1.link_id ≡ link)
  unfolding enqueue_row
  enqueue_row_finds link key type payload next id now b b' r h =
      elim (Option-cases (find_key key b.events)) [
        | inr ((old, e), f) ↦ ground (arith, f, eq_iff e.link_id link)
        | inl f ↦ elim (Option-cases (get id b.events)) [
          | inr (x, g) ↦ ground arith
          | inl g ↦ elim (Option-cases payload) [
            | inl p ↦ ground arith
            | inr (text, p) ↦
                enqueue_row_fresh link key type text payload next id now b b' r f g p h
          ]
        ]
      ]

  -- Queuing twice under one key is queuing once: whatever the second call's event, payload, time and
  -- id, it finds the first one's row for the same link and changes nothing, and is refused for
  -- another link.
  pub enqueue_row_idempotent :
      (link other key type_1 type_2 : String) (payload_1 payload_2 : Option String)
      (next_1 next_2 : Option ℕ) (id_1 id_2 : String) (now later : ℕ) (b b' : Box)
      (r : String × Event)
      → enqueue_row trim link key type_1 payload_1 next_1 id_1 now b ≡ ok b' r
      → enqueue_row trim other key type_2 payload_2 next_2 id_2 later b'
        ≡ (if str_eq link other then ok b' r else err other_workstream)
  unfolding enqueue_row
  enqueue_row_idempotent link other key type_1 type_2 payload_1 payload_2 next_1 next_2 id_1 id_2
        now later b b' r h =
      let found = enqueue_row_finds link key type_1 payload_1 next_1 id_1 now b b' r h in
      ground (arith, found.0, found.1)
