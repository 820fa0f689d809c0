-- ===== src/Clear.antt =====
-- app/api/tasks/[id]/clear/route.ts: /clear and the handoff to another agent or model. The request is
-- two steps around the summary of the transcript, for which the route waits; `meanwhile` is what the
-- rest of the process does then. The table of summaries is left out, as is the note to the other tabs.
pub mod Resetting
use operator_oss.Base.{ℕ, ◌+◌, Bool, true, false, Option, none, some, String, if◌then◌else◌}
use operator_oss.Turns.{has_turn, abort_turn}
use operator_oss.Pending.{clear_pending_messages}
use operator_oss.World.{World, Task, Role, Status, plain, get_task, update_task, add_message}
use operator_oss.Runner.Settle.{publish_dequeued}

-- What the body asks for: a plain clear, another agent, or another model.
pub data Handoff : Type 0 where
  same_agent : Handoff
  to_agent : String → Handoff
  to_model : Option String → Handoff

abbrev with_handoff : Handoff → Task → Task
with_handoff same_agent r = r
with_handoff (to_agent agent) r = record r {
  agent = agent;
  model = none;
  resolved_model = none;
  reasoning = none;
  permission_mode = none;
}
with_handoff (to_model model) r = record r { model = model; resolved_model = none }

-- The row of the fresh generation.
unfoldable pub fresh_row : ℕ → Handoff → Task → Task
fresh_row gen handoff r = with_handoff handoff (record r {
  generation = gen + 1;
  session_id = none;
  started = false;
  running = false;
  awaiting_input = false;
  turn_started_at = none;
  status = Status.in_progress;
})

-- Up to the summary: a turn that still streams is aborted.
unfoldable pub begin_clear : String → World → World
begin_clear id w = if has_turn id w.turns then record w { turns = (abort_turn id w.turns).0 } else w

-- From the summary on; `none` where the insert of the boundary throws.
unfoldable pub end_clear : String → ℕ → Handoff → String → World → Option World
unfolding fresh_row
end_clear id gen handoff summary w =
    elim (add_message id gen Role.session_break (plain summary) w) [
      | none ↦ none
      | some (w₁, n) ↦
          let w₂ = update_task id (fresh_row gen handoff) w₁ in
          let (rows, dropped) = clear_pending_messages id w₂.pending in
          some (publish_dequeued id dropped (record w₂ { pending = rows }))
    ]

-- The request, of a task whose row says `gen` when it comes.
unfoldable pub clear_task : String → ℕ → Handoff → (World → World) → String → World → Option World
unfolding begin_clear end_clear
clear_task id gen handoff meanwhile summary w =
    end_clear id gen handoff summary (meanwhile (begin_clear id w))
