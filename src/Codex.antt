-- ===== src/Codex.antt =====
-- lib/agents/codex/events.ts: the events of the codex CLI as the events that the runner reads. What
-- only shapes a text (clipping, first lines, peeks, the estimate of a cost) is a parameter.
pub mod Pairing
pub mod Rows
use Prim.Native.String.{◌++◌ as append}
use operator_oss.Base.{
  ℕ, zero, suc, ◌+◌, Bool, true, false, not, ◌&&◌, ◌||◌, Option, none, some, List, [], ◌∷◌, ◌++◌,
  String, str_eq, ◌==◌, if◌then◌else◌, is_some, map, length, take, ◌-◌,
}
use operator_oss.Sets.{member, add}
use operator_oss.Runner.Events.{AgentEvent, session, says, tool_call, tool_result, usage, error}

pub data Phase : Type 0 where
  started updated completed : Phase

pub data ChangeKind : Type 0 where
  add_file update_file delete_file : ChangeKind

pub record Change : Type 0 where
  pub kind : ChangeKind
  pub path : String

pub record Command : Type 0 where
  pub command : String
  pub aggregated_output : Option String
  pub failed : Bool  -- status === "failed"
  pub exit_code : Option ℕ

pub record McpCall : Type 0 where
  pub server : String
  pub tool : String
  pub arguments : String
  pub failed : Bool
  pub error : Option String  -- error.message
  pub content : String  -- resultText(result?.content)

pub record Todo : Type 0 where
  pub text : String
  pub completed : Bool

-- An item, with its id where the code reads it.
pub data Item : Type 0 where
  agent_message : String → Item
  reasoning : String → String → Item
  command_execution : String → Command → Item
  file_change : String → List Change → Bool → Item  -- true: status === "failed"
  mcp_tool_call : String → McpCall → Item
  web_search : String → String → Item
  todo_list : String → List Todo → Item
  error_item : String → Item
  unknown_item : Item

pub record Tokens : Type 0 where
  pub input_tokens : ℕ
  pub output_tokens : ℕ
  pub reasoning_output_tokens : ℕ
  pub cached_input_tokens : ℕ

pub data ThreadEvent : Type 0 where
  thread_started : String → ThreadEvent
  turn_completed : Tokens → ThreadEvent
  turn_failed : String → ThreadEvent
  stream_error : String → ThreadEvent
  item : Phase → Item → ThreadEvent
  unknown_event : ThreadEvent

pub record MapState : Type 0 where
  pub emitted_tool : List String
  pub model : String

-- What shapes texts.
pub record Rendering : Type 0 where
  pub trim : String → String
  pub clip : String → String
  pub clip_result : String → String
  pub first_line : String → String
  pub base_name : String → String
  pub show : ℕ → String
  pub lines_of : String → List String  -- split, without the blank lines
  pub output_peek : String → String
  pub lines_peek : List String → ℕ → String
  pub todos_peek : List Todo → String
  pub usage_text : String → Tokens → ℕ → String  -- the model, the counts, the output's total

unfoldable pub new_state : String → MapState
new_state model = record { emitted_tool = []; model = model }

abbrev pub is_completed : Phase → Bool
is_completed completed = true
is_completed _ = false

abbrev letter : ChangeKind → String
letter add_file = "A"
letter update_file = "M"
letter delete_file = "D"

abbrev verb : ChangeKind → String
verb add_file = "Create"
verb update_file = "Edit"
verb delete_file = "Delete"

unfoldable join_lines : List String → String
join_lines [] = ""
join_lines (x ∷ []) = x
join_lines (x ∷ y ∷ ys) = append x (append "\n" (join_lines (y ∷ ys)))

abbrev text_or_empty : Option String → String
text_or_empty none = ""
text_or_empty (some s) = s

abbrev is_failure : Option ℕ → Bool
is_failure none = false
is_failure (some code) = not (code == 0)

-- What a turn's mapper gives for one event: the events, and the state from then on.
abbrev pub Mapped : Type 0
Mapped = List AgentEvent × MapState

abbrev then_emit : Mapped → List AgentEvent → Mapped
then_emit (out, s) more = (out ++ more, s)

-- The tool event of an item on its first sighting, and nothing later.
unfoldable pub tool_once : String → String → String → Option String → MapState → Mapped
tool_once id title detail peek s = if member id s.emitted_tool then ([], s) else (
  tool_call id title (some detail) peek none ∷ [],
  record s { emitted_tool = add id s.emitted_tool },
)

module _ (r : Rendering) where
  -- At most `max` of the lines, and how many are left out.
  abbrev peek_of : ℕ → List String → String
  peek_of max lines = r.lines_peek (take max lines) (length lines - max)

  unfoldable pub map_command : Phase → String → Command → MapState → Mapped
  unfolding tool_once
  map_command phase id c s =
      let raw = text_or_empty c.aggregated_output in
      then_emit (tool_once id (append "❯ " (r.first_line c.command)) (r.clip c.command) none s) (
        if is_completed phase
        then tool_result id (r.clip_result raw) (c.failed || is_failure c.exit_code)
            (some (r.output_peek raw))
          ∷ []
        else [])

  abbrev change_title : List Change → String
  change_title (c ∷ []) = append "✎ " (append (verb c.kind) (append " " (r.base_name c.path)))
  change_title cs = append "✎ Edited " (append (r.show (length cs)) " files")

  unfoldable pub map_file_change : Phase → String → List Change → Bool → MapState → Mapped
  unfolding tool_once join_lines
  map_file_change phase id changes failed s =
      then_emit
        (tool_once id (change_title changes) (join_lines (map (λ c. c.path) changes))
          (some (peek_of 14 (map (λ c. append (letter c.kind) (append "  " c.path)) changes))) s)
        (if is_completed phase && failed then tool_result id "Patch failed" true none ∷ [] else [])

  -- The question card of ask_user comes from elsewhere.
  unfoldable pub map_mcp : Phase → String → McpCall → MapState → Mapped
  unfolding tool_once
  map_mcp phase id c s =
      if str_eq c.server "orchestrator" && str_eq c.tool "ask_user"
      then ([], s)
      else (let is_error = c.failed || is_some c.error in
          let content = if is_some c.error then text_or_empty c.error else c.content in
          then_emit
            (tool_once id (append "⚙ " (append c.server (append ": " c.tool))) (r.clip c.arguments)
              none s)
            (if is_completed phase
              then tool_result id (r.clip_result content) is_error
                  (if is_error then none else some (r.output_peek content))
                ∷ []
              else []))

  unfoldable pub map_todo : String → List Todo → MapState → Mapped
  map_todo id items s =
      if member id s.emitted_tool
      then (tool_result id "" false (some (r.todos_peek items)) ∷ [], s)
      else (
        tool_call id "☑ Plan" (some "") (some (r.todos_peek items)) none ∷ [],
        record s { emitted_tool = add id s.emitted_tool },
      )

  unfoldable pub map_item : Phase → Item → MapState → Mapped
  unfolding map_command map_file_change map_mcp map_todo tool_once
  map_item phase (agent_message text) s =
      (if is_completed phase && not (str_eq (r.trim text) "") then says text ∷ [] else [], s)
  map_item phase (reasoning id text) s =
      if is_completed phase && not (str_eq (r.trim text) "")
      then tool_once id "🧠 Thinking" (r.clip text) (some (peek_of 6 (r.lines_of text))) s
      else ([], s)
  map_item phase (command_execution id c) s = map_command phase id c s
  map_item phase (file_change id changes failed) s = map_file_change phase id changes failed s
  map_item phase (mcp_tool_call id c) s = map_mcp phase id c s
  map_item phase (web_search id query) s = tool_once id (append "🔎 Web search: " query) query none s
  map_item phase (todo_list id items) s = map_todo id items s
  map_item phase (error_item message) s = (error message ∷ [], s)
  map_item phase unknown_item s = ([], s)

  unfoldable pub map_thread_event : ThreadEvent → MapState → Mapped
  unfolding map_item
  map_thread_event (thread_started id) s = (session id ∷ [], s)
  map_thread_event (turn_completed u) s =
      (usage (r.usage_text s.model u (u.output_tokens + u.reasoning_output_tokens)) ∷ [], s)
  map_thread_event (turn_failed message) s = (error message ∷ [], s)
  map_thread_event (stream_error message) s = (error message ∷ [], s)
  map_thread_event (item phase i) s = map_item phase i s
  map_thread_event unknown_event s = ([], s)

  -- The driver's loop over a turn's events.
  unfoldable pub map_thread : List ThreadEvent → MapState → List AgentEvent
  unfolding map_thread_event
  map_thread [] s = []
  map_thread (ev ∷ evs) s = let (out, s') = map_thread_event ev s in out ++ map_thread evs s'
