-- ===== src/Worker/Once.antt =====
-- lib/workstreams/worker.ts: what is queued for a task's card is queued once.
use operator_oss.Base.{
  ℕ, ◌≡◌, ap, inl, inr, true, ◌||◌, Option, none, some, String, str_eq, eq_iff, is_some, arith,
  Bool-cases, Option-cases,
}
use operator_oss.Outbox.{Box, Event, ok, is_disconnected}
use operator_oss.Outbox.Changes.{enqueue_workstream_event, enqueue_row}
use operator_oss.Outbox.Delivery.{Result-cases}
use operator_oss.Outbox.Enqueue.{enqueue_row_idempotent}
use operator_oss.Worker.Queueing.{
  LifecycleKind, queue_workstream_lifecycle, workstream_by_task, kind_name, lifecycle_key,
  lifecycle_payload,
}

module _ (trim : String → String) where
  enqueue_row-links :
      (link key type : String) (payload : Option String) (next : Option ℕ) (id : String) (now : ℕ)
      (b b' : Box) (r : String × Event)
      → enqueue_row trim link key type payload next id now b ≡ ok b' r
      → b'.links ≡ b.links
  unfolding enqueue_row
  enqueue_row-links link key type payload next id now b b' r h = ground arith

  enqueue_again :
      (link key type : String) (payload : Option String) (next : Option ℕ) (id id_2 : String)
      (now later : ℕ) (b b' : Box) (r : String × Event)
      → enqueue_workstream_event trim link key type payload next id now b ≡ ok b' r
      → (enqueue_workstream_event trim link key type payload next id_2 later b' ≡ ok b' r)
        × (b'.links ≡ b.links)
  unfolding enqueue_workstream_event
  enqueue_again link key type payload next id id_2 now later b b' r h =
      elim (Bool-cases (str_eq (trim link) "")) [
        | inl e ↦ ground arith
        | inr e ↦ elim (Bool-cases (str_eq (trim key) "")) [
          | inl f ↦ ground arith
          | inr f ↦
              let first : enqueue_row trim (trim link) (trim key) type payload next id now b
                  ≡ ok b' r =
                ground arith in
              ground (
                arith,
                enqueue_row_idempotent trim (trim link) (trim link) (trim key) type type payload
                    payload next next id id_2 now later b b' r first,
                eq_iff (trim link) (trim link),
                enqueue_row-links (trim link) (trim key) type payload next id now b b' r first,
              )
        ]
      ]

  -- Queuing the same occurrence for a task once more, at another time and with another id, gives the
  -- event that the first call queued or found, and changes nothing.
  pub queue_workstream_lifecycle_once :
      (task : String) (kind : LifecycleKind) (occurrence id id_2 : String) (now later : ℕ) (b : Box)
      → is_some (queue_workstream_lifecycle trim task kind occurrence id now b).1 ≡ true
      → queue_workstream_lifecycle trim task kind occurrence id_2 later
          (queue_workstream_lifecycle trim task kind occurrence id now b).0
        ≡ queue_workstream_lifecycle trim task kind occurrence id now b
  unfolding queue_workstream_lifecycle
  queue_workstream_lifecycle_once task kind occurrence id id_2 now later b h =
      elim (Option-cases (workstream_by_task task b.links)) [
        | inl n ↦ ground arith
        | inr ((link, l), n) ↦
            elim (Bool-cases (is_disconnected l.state || str_eq (trim occurrence) "")) [
              | inl c ↦ ground arith
              | inr c ↦
                  let key = lifecycle_key link (kind_name kind) (trim occurrence) in
                  let text = some (lifecycle_payload kind) in
                  elim (Result-cases
                    (enqueue_workstream_event trim link key "routine_update" text none id now b)) [
                      | inr (x, q) ↦ ground arith
                      | inl (b', r, q) ↦
                          let again =
                            enqueue_again link key "routine_update" text none id id_2 now later b b'
                              r q in
                          let first : queue_workstream_lifecycle trim task kind occurrence id now b
                              ≡ (b', some r) =
                            ground arith in
                          let second : queue_workstream_lifecycle trim task kind occurrence id_2
                                later b'
                              ≡ (b', some r) =
                            ground (arith, again.0, ap (workstream_by_task task) again.1) in
                          rw first second
                    ]
            ]
      ]
