-- ===== src/Runner/Launch.antt =====
-- lib/runner.ts: startTurn, startResumeTurn, and the callback that starts a dequeued follow-up under
-- the task's lock. The `.catch` of the detached turn and that of the callback are in Runner/Crash. Git's answer about the worktree is an argument: the new base tip and the notice,
-- or nothing where there is no fast-forward or git fails.
-- What the rest of the process does while the branch catches up with its base (the awaits on
-- lib/git.ts) is an argument, a function of the world.
use operator_oss.Base.{
  ℕ, ◌+◌, Bool, true, false, not, ◌&&◌, Option, none, some, [], String, str_eq, ◌==◌, if◌then◌else◌,
  is_some,
}
use operator_oss.Maps.{get}
use operator_oss.Turns.{has_turn, owns_turn, claim_turn, unregister_turn}
use operator_oss.Pending.{add_pending_message}
use operator_oss.World.{
  World, Task, plain, user, message_event, queued_event, turn_end_event, get_task, update_task,
  publish, add_message,
}
use operator_oss.Runner.{Classifiers, Turn, publish_turn_error}
use operator_oss.Runner.Settle.{Drain}

-- What a launch comes to: a running turn, a parked message, or an exception.
pub data Launched : Type 0 where
  running : Turn → Bool → String → World → Launched  -- with `resume` and the sync note
  parked : World → Launched
  threw : String → World → Launched

abbrev pub foreign_key : String
foreign_key = "FOREIGN KEY constraint failed"

abbrev pub new_turn : String → Task → ℕ → Bool → World → Turn
new_turn id task c registers w = record {
  task_id = id;
  gen = task.generation;
  agent = task.agent;
  was_started = task.started;
  started_at = w.clock;
  controller = c;
  session_id = task.session_id;
  opened = false;
  registers = registers;
  registered = false;
  tool_msgs = [];
  open_asks = [];
  turn_usage = none;
  turn_error = none;
  auth_failure = none;
  usage_limit_failure = none;
}

-- The insert of a parked message fails on the foreign key as `add_message` does.
unfoldable pub park_message : String → ℕ → String → World → Launched
park_message id gen text w = elim (get id w.tasks) [
  | none ↦ threw foreign_key w
  | some r ↦
      let (rows, row) = add_pending_message w.next_id w.clock id gen text w.pending in
      parked
        (publish id (queued_event row.id) (record w { next_id = w.next_id + 1; pending = rows }))
]

abbrev take_slot : String → Option ℕ → World → World × Option ℕ
take_slot id (some c) w = (w, some c)
take_slot id none w = let (reg, c) = claim_turn id w.turns in (record w { turns = reg }, c)

unfoldable pub start_turn : String → Task → Bool → String → String → Option ℕ → World → Launched
unfolding park_message
start_turn id task registers text sync_note given w =
    let (w', c) = take_slot id given w in
    elim c [
      | none ↦ park_message id task.generation text w'
      | some controller ↦
          running (new_turn id task controller registers w') (is_some task.session_id) sync_note w'
    ]

abbrev pub rebase : Option (String × String) → Task → Task
rebase none r = r
rebase (some (tip, note)) r = if str_eq tip "" then r else record r { base_sha = tip }

abbrev pub note_of : Option (String × String) → String
note_of none = ""
note_of (some (tip, note)) = note

abbrev has_worktree : Task → Bool
has_worktree task = not (str_eq task.worktree_path "") && not (str_eq task.work_branch "")

-- Without a worktree there is nothing to catch up, and nothing to wait for.
abbrev pub catch_up : Task → Option (String × String) → Option (String × String)
catch_up task sync = if has_worktree task then sync else none

abbrev pub while_waiting : Task → (World → World) → World → World
while_waiting task meanwhile w = if has_worktree task then meanwhile w else w

abbrev pub begin_running : Task → Task
begin_running r = record r { running = true; suggested = false; awaiting_input = false }

-- The `try` block of startResumeTurn, holding the slot of controller `c`.
unfoldable pub resume_holding :
    String
    → Task
    → Bool
    → Option (String × String)
    → (World → World)
    → String
    → ℕ
    → World
    → Launched
unfolding start_turn
resume_holding id task registers sync meanwhile text c w =
    let s = catch_up task sync in
    let w₁ = update_task id (rebase s) (while_waiting task meanwhile w) in
    elim (add_message id task.generation user (plain text) w₁) [
      | none ↦ threw foreign_key (record w₁ { turns = unregister_turn id c w₁.turns })
      | some (w₂, n) ↦
          start_turn id (rebase s task) registers text (note_of s) (some c)
            (publish id (message_event user n) (update_task id begin_running w₂))
    ]

unfoldable pub start_resume_turn :
    String
    → Task
    → Bool
    → Option (String × String)
    → (World → World)
    → String
    → Option ℕ
    → World
    → Launched
unfolding park_message
start_resume_turn id task registers sync meanwhile text given w =
    let (w', c) = take_slot id given w in
    elim c [
      | none ↦ park_message id task.generation text w'
      | some controller ↦ resume_holding id task registers sync meanwhile text controller w'
    ]

-- The dequeued follow-up, once the task's lock is held.
pub data Drained : Type 0 where
  launched : Launched → Drained
  dropped : World → Drained

abbrev pub release : String → ℕ → World → World
release id c w = record w { turns = unregister_turn id c w.turns }

module _ (k : Classifiers) where
  unfoldable pub launch_drain :
      String → ℕ → Bool → Option (String × String) → (World → World) → Drain → World → Drained
  unfolding start_resume_turn
  launch_drain id gen registers sync meanwhile d w = elim (get_task id w) [
    | none ↦ dropped (release id d.controller w)
    | some cur ↦
        if not (cur.generation == gen)
        then dropped (release id d.controller w)
        else elim (get cur.project_id w.projects) [
          | none ↦ dropped (
              publish id turn_end_event (
                publish_turn_error k id gen "Project was deleted; queued follow-up cancelled."
                  (release id d.controller w)))
          | some project ↦
              if not (owns_turn id d.controller w.turns)
              then dropped (if has_turn id w.turns then w else publish id turn_end_event w)
              else launched (
                  start_resume_turn id cur registers sync meanwhile d.message.content
                    (some d.controller) w)
        ]
  ]
