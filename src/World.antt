-- ===== src/World.antt =====
-- The process as lib/runner.ts sees it: the rows that it reads and writes in lib/store.ts, the turn
-- registry, the event bus and the queues of side effects. Row ids (nanoid) are numbers that were not
-- given out before. Not kept here: the columns that the runner copies without reading them, and the
-- fields of a bus event that repeat its row (generation, createdAt, source).
use operator_oss.Base.{
  ℕ, ◌+◌, Bool, true, false, Option, none, some, List, [], ◌∷◌, String, str_eq, ◌==◌, ◌&&◌,
  if◌then◌else◌,
}
use operator_oss.Maps.{get, set}
use operator_oss.Pending.{PendingMessage}
use operator_oss.Turns.{Registry}

pub data Status : Type 0 where
  not_started in_progress on_hold finished cancelled : Status  -- "done" is `finished`

pub data WorkspaceMode : Type 0 where
  direct worktree : WorkspaceMode

pub record Task : Type 0 where
  pub project_id : String
  pub title : String
  pub description : String
  pub agent : String
  pub model : Option String
  pub reasoning : Option String
  pub permission_mode : Option String
  pub workspace_mode : WorkspaceMode
  pub launch_config_required : Bool
  pub launch_config_confirmed_at : ℕ  -- 0 until it is confirmed
  pub generation : ℕ
  pub status : Status
  pub suggested : Bool
  pub started : Bool
  pub running : Bool
  pub awaiting_input : Bool
  pub session_id : Option String
  pub resolved_model : Option String
  pub turn_started_at : Option ℕ
  pub worktree_path : String
  pub work_branch : String
  pub base_sha : String

pub record Project : Type 0 where
  pub repo_path : String
  pub branch : String

pub data Role : Type 0 where
  user assistant tool system session_break : Role

pub record AskData : Type 0 where
  pub ask_id : String
  pub questions : String
  pub answers : Option String

pub record ToolData : Type 0 where
  pub title : String
  pub detail : Option String
  pub peek : Option String
  pub diff : Option String
  pub result : Option String
  pub is_error : Option Bool
  pub ask : Option AskData

-- The recovery hint under a failed turn's line.
pub data Hint : Type 0 where
  context_overflow auth_expired usage_limit : Hint

pub data Body : Type 0 where
  plain : String → Body
  tool_json : ToolData → Body
  failure : String → Option Hint → Body  -- "⚠ " and the provider's text, then the hint
  kept_note : ℕ → Bool → Body  -- "ℹ n queued messages kept …"; true: until a reconnect

pub record Message : Type 0 where
  pub id : ℕ
  pub task_id : String
  pub generation : ℕ
  pub role : Role
  pub body : Body
  pub created_at : ℕ

pub data BusEvent : Type 0 where
  session_event : String → BusEvent
  model_event : String → BusEvent
  message_event : Role → ℕ → BusEvent  -- user, assistant, tool, ask and notice, by their row
  updated_event : ℕ → BusEvent  -- tool_result and ask_answered, by their row
  suggested_event : String → BusEvent
  usage_event : String → BusEvent
  error_event : Body → Option ℕ → BusEvent
  done_event : Option String → BusEvent
  queued_event : ℕ → BusEvent
  dequeued_event : ℕ → BusEvent
  agent_auth_event : String → Bool → BusEvent
  turn_end_event : BusEvent

pub data Lifecycle : Type 0 where
  work_started : ℕ → Lifecycle
  ask_needs_input : ℕ → String → Lifecycle
  turn_needs_input : ℕ → ℕ → Lifecycle
  conversation : String → Lifecycle

pub data Tracked : Type 0 where
  first_task_started : Tracked
  turn_started : ℕ → Bool → Tracked
  turn_failed : ℕ → String → Tracked
  turn_completed : ℕ → Bool → Option String → Tracked

pub record Session : Type 0 where
  pub task_id : String
  pub generation : ℕ
  pub agent_session : String
  pub ended : Bool

pub record World : Type 0 where
  pub clock : ℕ  -- Date.now()
  pub next_id : ℕ
  pub turns : Registry
  pub tasks : List (String × Task)
  pub projects : List (String × Project)
  pub pending : List PendingMessage
  pub messages : List Message  -- newest first
  pub sessions : List Session
  pub usage : List (String × String)
  pub broken : List String  -- agents whose login is flagged dead
  pub first_task : Bool
  pub bus : List (String × BusEvent)  -- newest first
  pub lifecycle : List (String × Lifecycle)  -- newest first
  pub tracked : List (String × Tracked)  -- newest first

abbrev pub get_task : String → World → Option Task
get_task id w = get id w.tasks

unfoldable pub update_task : String → (Task → Task) → World → World
update_task id patch w = elim (get id w.tasks) [
  | none ↦ w
  | some t ↦ record w { tasks = set id (patch t) w.tasks }
]

unfoldable pub publish : String → BusEvent → World → World
publish id ev w = record w { bus = (id, ev) ∷ w.bus }

-- The insert fails on the foreign key where the task's row is gone.
unfoldable pub add_message : String → ℕ → Role → Body → World → Option (World × ℕ)
add_message id generation role body w = elim (get id w.tasks) [
  | none ↦ none
  | some t ↦ some (
    record w {
      next_id = w.next_id + 1;
      messages =
          record {
            id = w.next_id;
            task_id = id;
            generation = generation;
            role = role;
            body = body;
            created_at = w.clock;
          }
          ∷ w.messages;
    },
    w.next_id,
  )
]

abbrev rewrite_message : ℕ → Body → List Message → List Message
rewrite_message n body [] = []
rewrite_message n body (m ∷ ms) =
    (if m.id == n then record m { body = body } else m) ∷ rewrite_message n body ms

unfoldable pub update_message : ℕ → Body → World → World
update_message n body w = record w { messages = rewrite_message n body w.messages }

abbrev end_rows : String → ℕ → List Session → List Session
end_rows id gen [] = []
end_rows id gen (s ∷ ss) =
    (if str_eq s.task_id id && s.generation == gen then record s { ended = true } else s)
    ∷ end_rows id gen ss

unfoldable pub end_session : String → ℕ → World → World
end_session id gen w = record w { sessions = end_rows id gen w.sessions }

-- ON CONFLICT(task_id, generation) DO UPDATE.
abbrev upsert_session : String → ℕ → String → List Session → List Session
upsert_session id gen session [] =
    record { task_id = id; generation = gen; agent_session = session; ended = false } ∷ []
upsert_session id gen session (s ∷ ss) =
    if str_eq s.task_id id && s.generation == gen
    then record s { agent_session = session } ∷ ss
    else s ∷ upsert_session id gen session ss

unfoldable pub record_session : String → ℕ → String → World → Option World
record_session id gen session w = elim (get id w.tasks) [
  | none ↦ none
  | some t ↦ some (record w { sessions = upsert_session id gen session w.sessions })
]

unfoldable pub add_usage : String → String → World → Option World
add_usage id amount w = elim (get id w.tasks) [
  | none ↦ none
  | some t ↦ some (record w { usage = (id, amount) ∷ w.usage })
]

unfoldable pub queue_lifecycle : String → Lifecycle → World → World
queue_lifecycle id what w = record w { lifecycle = (id, what) ∷ w.lifecycle }

unfoldable pub track : String → Tracked → World → World
track id what w = record w { tracked = (id, what) ∷ w.tracked }
