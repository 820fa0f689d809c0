-- ===== src/Worker/Queueing.antt =====
-- lib/workstreams/worker.ts: what the worker queues for a task's card. The ids (nanoid) of the new
-- rows and the time are arguments.
use Prim.Native.String.{◌++◌ as append}
use operator_oss.Base.{ℕ, ◌||◌, Option, none, some, List, [], ◌∷◌, String, str_eq, if◌then◌else◌}
use operator_oss.Outbox.{Box, Event, Link, Result, ok, err, is_disconnected}
use operator_oss.Outbox.Changes.{enqueue_workstream_event}

pub data LifecycleKind : Type 0 where
  activation work_started input_needed paused resumed manual_completion : LifecycleKind

abbrev pub kind_name : LifecycleKind → String
kind_name activation = "activation"
kind_name work_started = "work_started"
kind_name input_needed = "input_needed"
kind_name paused = "paused"
kind_name resumed = "resumed"
kind_name manual_completion = "manual_completion"

abbrev pub lifecycle_message : LifecycleKind → String
lifecycle_message activation = "This work is connected for updates."
lifecycle_message work_started = "Work has started."
lifecycle_message input_needed = "Input is needed before work can continue."
lifecycle_message paused = "Updates are paused."
lifecycle_message resumed = "Updates have resumed."
lifecycle_message manual_completion = "Work is complete."

-- JSON.stringify of { body, attachments: [] }; the messages hold nothing that it escapes.
abbrev pub lifecycle_payload : LifecycleKind → String
lifecycle_payload kind =
    append "{\"body\":\"" (append (lifecycle_message kind) "\",\"attachments\":[]}")

-- lifecycle:${link.id}:${kind}:${occurrence}
abbrev pub lifecycle_key : String → String → String → String
lifecycle_key link kind occurrence =
    append "lifecycle:" (append link (append ":" (append kind (append ":" occurrence))))

unfoldable pub workstream_by_task : String → List (String × Link) → Option (String × Link)
workstream_by_task task [] = none
workstream_by_task task ((id, l) ∷ links) =
    if str_eq l.task_id task then some (id, l) else workstream_by_task task links

-- A call whose exceptions are caught.
abbrev pub caught : {A : Type 0} → Result A → Box → Box × Option A
caught (ok b x) old = (b, some x)
caught (err e) old = (old, none)

module _ (trim : String → String) where
  unfoldable pub queue_workstream_lifecycle :
      String → LifecycleKind → String → String → ℕ → Box → Box × Option (String × Event)
  unfolding workstream_by_task
  queue_workstream_lifecycle task kind occurrence id now b =
      elim (workstream_by_task task b.links) [
        | none ↦ (b, none)
        | some (link, l) ↦
            if is_disconnected l.state || str_eq (trim occurrence) ""
            then (b, none)
            else caught
                (enqueue_workstream_event trim link
                  (lifecycle_key link (kind_name kind) (trim occurrence)) "routine_update"
                  (some (lifecycle_payload kind)) none id now b)
                b
      ]

  unfoldable pub queue_manual_workstream_completion :
      String
      → String
      → String
      → String
      → ℕ
      → Box
      → Box × (Option (String × Event) × Option (String × Event))
  unfolding queue_workstream_lifecycle
  queue_manual_workstream_completion task occurrence id proposal_id now b =
      elim (workstream_by_task task b.links) [
        | none ↦ (b, (none, none))
        | some (link, l) ↦
            if is_disconnected l.state || str_eq (trim occurrence) ""
            then (b, (none, none))
            else (let (b', comment) =
                  queue_workstream_lifecycle task manual_completion (trim occurrence) id now b in
                let (b'', proposal) =
                  caught
                    (enqueue_workstream_event trim link
                      (lifecycle_key link "complete_card" (trim occurrence)) "proposed_change"
                      (some "{\"kind\":\"complete_card\",\"payload\":{}}") none proposal_id now b')
                    b' in
                (b'', (comment, proposal)))
      ]
