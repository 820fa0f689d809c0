-- ===== src/Routes/Stop.antt =====
-- app/api/tasks/[id]/abort/route.ts and app/api/tasks/[id]/pending/route.ts: the Stop button, and the
-- cancelling of a queued follow-up.
use operator_oss.Base.{ℕ, Bool, true, false, Option, none, some, String, if◌then◌else◌, is_some}
use operator_oss.Turns.{abort_turn}
use operator_oss.Pending.{PendingMessage, delete_pending_message, clear_pending_messages}
use operator_oss.World.{World, dequeued_event, publish}
use operator_oss.Runner.Settle.{publish_dequeued}

-- The flag of the answer: whether a turn was told to stop.
unfoldable pub post_abort : String → World → World × Bool
post_abort id w =
    let (reg, aborted) = abort_turn id w.turns in
    let w₁ = record w { turns = reg } in
    let (rows, dropped) = clear_pending_messages id w₁.pending in
    if aborted
    then (publish_dequeued id dropped (record w₁ { pending = rows }), true)
    else (w₁, false)

abbrev publish_removed : String → Option PendingMessage → World → World
publish_removed id none w = w
publish_removed id (some p) w = publish id (dequeued_event p.id) w

-- `none` where the body names no row.
unfoldable pub delete_pending : String → Option ℕ → World → World × Bool
delete_pending id none w = (w, false)
delete_pending id (some pending_id) w =
    let (rows, removed) = delete_pending_message pending_id id w.pending in
    (publish_removed id removed (record w { pending = rows }), is_some removed)
