-- ===== src/Tests/OutboxRuns.antt =====
-- The outbox and its worker on one link and one event.
use operator_oss.Base.{
  ℕ, ◌≤◌, ◌≡◌, refl, true, false, Option, none, some, List, [], ◌∷◌, String, is_some, All, length,
}
use operator_oss.Maps.{get}
use operator_oss.Outbox.{
  Box, Event, pending, delivered, is_due, Link, LinkState, ok, err, not_owner, claimed, claim_row,
  claim_workstream_event, claim_due_workstream_events, select_due,
}
use operator_oss.Outbox.Changes.{
  released, mark_workstream_delivered, mark_workstream_failed, release_workstream_claim,
  enqueue_row, enqueue_workstream_event, find_key,
}
use operator_oss.Outbox.Claims.{IsHeld, HeldIn, claim_due_workstream_events_takes}
use operator_oss.Outbox.Delivery.{
  is_owner, Op, claim_due_op, claim_op, release_op, box_of, run_ops, stale_owner_refused,
  run_ops-delivered, release_undoes_claim,
}
use operator_oss.Worker.{Summary, Failure, BridgeResult, sent, deliver_event}
use operator_oss.Worker.Settling.{deliver_event_leaves_no_claim}
use operator_oss.Worker.Queueing.{queue_workstream_lifecycle, work_started}
use operator_oss.Worker.Once.{queue_workstream_lifecycle_once}

abbrev link : Link
link = record {
  task_id = "t";
  provider = "tracker";
  external_card_id = "c";
  external_workstream_id = "w";
  state = LinkState.active;
  created_at = 1;
  updated_at = 1;
}

abbrev event : Event
event = record {
  link_id = "l";
  idempotency_key = "k";
  event_type = "routine_update";
  payload = "{}";
  state = pending;
  attempts = 0;
  next_attempt_at = 100;
  claim_expires_at = 0;
  claim_token = "";
  last_error = "";
  delivered_at = 0;
  created_at = 50;
  updated_at = 50;
}

abbrev box : Box
box = record { links = ("l", link) ∷ []; events = ("e", event) ∷ [] }

-- The event after its claim at 200.
abbrev held : Event
held = claimed 200 "tok" event

abbrev held_box : Box
held_box = record { links = ("l", link) ∷ []; events = ("e", held) ∷ [] }

abbrev keep : String → String
keep s = s

claim_gives : (claim_workstream_event "e" 200 "tok" box).1 ≡ some held
unfolding claim_workstream_event get
claim_gives = refl

found : get "e" box.events ≡ some event
unfolding get
found = refl

claim_due_workstream_events_takes_example :
    All (λ r. IsHeld 200 r.1) (claim_due_workstream_events 200 20 none (λ i. "tok") box).1
    × (length (claim_due_workstream_events 200 20 none (λ i. "tok") box).1 ≤ 20)
    × (length (claim_due_workstream_events 200 20 none (λ i. "tok") box).1
        ≡ length (select_due 200 20 none box))
    × All
        (HeldIn 200 (claim_due_workstream_events 200 20 none (λ i. "tok") box).0)
        (select_due 200 20 none box)
claim_due_workstream_events_takes_example =
    claim_due_workstream_events_takes 200 20 none (λ i. "tok") box (found, tt)

stale_owner_refused_example :
    (mark_workstream_delivered keep "e" "first" 300 (claim_row "e" 200 "second" box)
      ≡ err not_owner)
    × (mark_workstream_failed keep "e" "first" "network" 900 300 (claim_row "e" 200 "second" box)
        ≡ err not_owner)
    × (release_workstream_claim keep "e" "first" 900 300 (claim_row "e" 200 "second" box)
        ≡ err not_owner)
stale_owner_refused_example =
    stale_owner_refused keep "e" "first" "second" 200 900 300 "network" box event found refl refl
      refl

abbrev done : Event
done = record held { state = delivered }

abbrev done_box : Box
done_box = record { links = ("l", link) ∷ []; events = ("e", done) ∷ [] }

done_found : get "e" done_box.events ≡ some done
unfolding get
done_found = refl

abbrev two_ops : List Op
two_ops =
    claim_due_op 90000 5 none (λ n. "batch")
    ∷ claim_op "e" 90000 "new"
    ∷ release_op "e" "new" 90000 90000
    ∷ []

run_ops-delivered_example : get "e" (run_ops keep two_ops done_box).events ≡ some done
run_ops-delivered_example = run_ops-delivered keep two_ops "e" done_box done done_found refl

release_undoes_claim_example :
    (get "e"
        (box_of
          (claim_row "e" 200 "tok" box)
          (release_workstream_claim keep "e" "tok" 400 300 (claim_row "e" 200 "tok" box))).events
      ≡ some (released 300 400 (claimed 200 "tok" event)))
    × (released 300 400 (claimed 200 "tok" event)
        ≡ record event { next_attempt_at = 400; updated_at = 300 })
    × (is_due 400 (released 300 400 (claimed 200 "tok" event)) ≡ true)
release_undoes_claim_example =
    release_undoes_claim keep "e" "tok" 200 400 300 box event found refl refl refl

again :
    enqueue_row keep "l" "k" "routine_update" (some "{}") none "e2" 300 box ≡ ok box ("e", event)
unfolding enqueue_row find_key
again = refl

abbrev failure : Failure
failure = record { retryable = true; category = "network"; status = none; remote_state = none }

abbrev none_yet : Summary
none_yet = record { claimed = 1; delivered = 0; retried = 0; permanently_failed = 0 }

abbrev show : ℕ → String
show n = "503"

abbrev clock : String → ℕ
clock id = 300

held_found : get "e" held_box.events ≡ some held
unfolding get
held_found = refl

abbrev deliver : Link → String × Event → Box → Box × Option BridgeResult
deliver l r b = (b, some sent)

link_found : get "l" held_box.links ≡ some link
unfolding get
link_found = refl

not_thrown :
    (deliver_event keep show clock deliver none 200 ("e", held) none_yet held_box).thrown ≡ none
unfolding deliver_event mark_workstream_delivered get
not_thrown = refl

deliver_event_leaves_no_claim_example :
    is_owner "e" "tok"
      (deliver_event keep show clock deliver none 200 ("e", held) none_yet held_box).box
    ≡ false
deliver_event_leaves_no_claim_example =
    deliver_event_leaves_no_claim keep show clock deliver none 200 "e" "tok" held link none_yet
      held_box link_found not_thrown

queued : is_some (queue_workstream_lifecycle keep "t" work_started "1" "n" 300 box).1 ≡ true
unfolding queue_workstream_lifecycle enqueue_workstream_event find_key get
queued = refl

queue_workstream_lifecycle_once_example :
    queue_workstream_lifecycle keep "t" work_started "1" "n2" 400
      (queue_workstream_lifecycle keep "t" work_started "1" "n" 300 box).0
    ≡ queue_workstream_lifecycle keep "t" work_started "1" "n" 300 box
queue_workstream_lifecycle_once_example =
    queue_workstream_lifecycle_once keep "t" work_started "1" "n" "n2" 300 400 box queued
