-- ===== src/Kimi.antt =====
-- lib/agents/kimi-code/events.ts: the events of the Kimi Code CLI as the events that the runner reads.
-- What parses JSON or shapes a text is a parameter.
pub mod Deferred
pub mod Answered
use Prim.Native.String.{◌++◌ as append}
use operator_oss.Base.{
  ℕ, ◌+◌, Bool, true, false, not, ◌||◌, Option, none, some, List, [], ◌∷◌, ◌++◌, String, str_eq,
  ltb, if◌then◌else◌, is_some, length,
}
use operator_oss.Maps.{get, set, delete, has}
use operator_oss.Runner.Events.{AgentEvent, says, tool_call, tool_result, asks, notice, error}

pub record TokenUsage : Type 0 where
  pub input_tokens : ℕ
  pub output_tokens : ℕ
  pub cache_read_tokens : ℕ
  pub cache_creation_tokens : ℕ

-- A result's output is the text that resultText makes of it, a display what displayDiff shows of it.
pub data KimiEvent : Type 0 where
  text_part : String → KimiEvent
  think_part : KimiEvent
  other_part : KimiEvent
  kimi_call : String → String → Option String → KimiEvent
  call_part : Option String → KimiEvent
  kimi_result : String → String → Bool → Option String → KimiEvent
  status_update : Option TokenUsage → KimiEvent
  question_request : String → String → KimiEvent
  approval_request : String → String → KimiEvent
  step_interrupted : KimiEvent
  subagent_event : String → KimiEvent
  compaction_begin : KimiEvent
  compaction_end : KimiEvent
  parse_error : String → KimiEvent
  silent_event : KimiEvent

pub record PendingCall : Type 0 where
  pub id : String
  pub name : String
  pub arguments_text : String

pub record KimiState : Type 0 where
  pub calls : List (String × String)
  pub malformed_events : List String
  pub thinking_parts : ℕ
  pub interrupted : Bool
  pub pending_call : Option PendingCall
  pub latest_token_usage : Option TokenUsage

-- What JSON.parse makes of a text; an object stays a text.
pub data Parsed : Type 0 where
  object : String → Parsed
  other_value : Parsed
  malformed : Parsed

pub record Described : Type 0 where
  pub title : String
  pub detail : Option String
  pub peek : Option String
  pub diff : Option String

pub record KimiText : Type 0 where
  pub trim : String → String
  pub clip : String → String
  pub parse : String → Parsed
  pub edit_arguments : String → String  -- the first edit as old_string and new_string
  pub describe_tool_use : String → String → Described

unfoldable pub new_kimi_code_state : KimiState
new_kimi_code_state = record {
  calls = [];
  malformed_events = [];
  thinking_parts = 0;
  interrupted = false;
  pending_call = none;
  latest_token_usage = none;
}

abbrev max_diagnostics : ℕ
max_diagnostics = 20

unfoldable pub diagnostic : String → KimiState → KimiState
diagnostic message s =
    if ltb (length s.malformed_events) max_diagnostics
    then record s { malformed_events = s.malformed_events ++ (message ∷ []) }
    else s

abbrev or_blank : Option String → String
or_blank none = ""
or_blank (some s) = s

abbrev pub KimiMapped : Type 0
KimiMapped = List AgentEvent × KimiState

module _ (r : KimiText) where
  unfoldable pub described_kimi_tool : String → String → Described
  described_kimi_tool name args =
      if str_eq name "ReadFile"
      then r.describe_tool_use "Read" args
      else if str_eq name "WriteFile"
      then r.describe_tool_use "Write" args
      else if str_eq name "Shell"
      then r.describe_tool_use "Bash" args
      else if str_eq name "StrReplaceFile"
      then r.describe_tool_use "Edit" (r.edit_arguments args)
      else r.describe_tool_use name args

  abbrev pub tool_event_for : String → String → String → AgentEvent
  tool_event_for id name args =
      let d = described_kimi_tool name args in tool_call id d.title d.detail d.peek d.diff

  -- The arguments, `none` where they are no object, and the state.
  abbrev read_args : Parsed → String → KimiState → Option String × KimiState
  read_args (object args) id s = (some args, s)
  read_args other_value id s =
      (none, diagnostic (append "Tool " (append id " arguments must be a JSON object")) s)
  read_args malformed id s =
      (none, diagnostic (append "Tool " (append id " arguments were malformed JSON")) s)

  unfoldable pub tool_args : String → String → KimiState → Option String × KimiState
  tool_args raw id s = if str_eq raw "" then (some "{}", s) else read_args (r.parse raw) id s

  abbrev or_empty_object : Option String → String
  or_empty_object none = "{}"
  or_empty_object (some args) = args

  -- The deferred tool event, with whatever arguments came.
  unfoldable pub flush_pending_call : KimiState → KimiMapped
  unfolding tool_args described_kimi_tool
  flush_pending_call s = elim s.pending_call [
    | none ↦ ([], s)
    | some p ↦
        let (args, s') = tool_args p.arguments_text p.id (record s { pending_call = none }) in
        (tool_event_for p.id p.name (or_empty_object args) ∷ [], s')
  ]

  abbrev pub fault : String → KimiState → KimiMapped
  fault message s = (error message ∷ [], diagnostic message s)

  -- The arguments that come with a call, `none` where they are still to come.
  abbrev pub at_once : Option String → Option String
  at_once none = none
  at_once (some raw) = if str_eq (r.trim raw) "" then none else some raw

  abbrev pub shown_call : String → String → Option String → AgentEvent
  shown_call id name none = error (append "Kimi Code tool " (append id " had malformed arguments"))
  shown_call id name (some args) = tool_event_for id name args

  unfoldable pub map_tool_call : String → String → Option String → KimiState → KimiMapped
  unfolding flush_pending_call
  map_tool_call id name raw s =
      if str_eq id ""
      then fault "Kimi Code emitted a tool call without an id" s
      else if has id s.calls
      then fault (append "Kimi Code emitted duplicate tool call " id) s
      else (let (flushed, s₁) = flush_pending_call s in
          let s₂ = record s₁ { calls = set id name s₁.calls } in
          elim (at_once raw) [
            | none ↦ (
              flushed,
              record s₂ {
                pending_call =
                    some (record { id = id; name = name; arguments_text = or_blank raw });
              },
            )
            | some text ↦
                let (args, s₃) = tool_args text id s₂ in
                (flushed ++ (shown_call id name args ∷ []), s₃)
          ])

  unfoldable pub map_tool_result : String → String → Bool → Option String → KimiState → KimiMapped
  unfolding flush_pending_call
  map_tool_result id output is_error peek s =
      let (flushed, s₁) = flush_pending_call s in
      if not (has id s₁.calls)
      then (let message = append "Kimi Code emitted orphan tool result " id in
          (flushed ++ (error message ∷ []), diagnostic message s₁))
      else (
        flushed ++ (tool_result id (r.clip output) is_error peek ∷ []),
        record s₁ { calls = delete id s₁.calls },
      )

  abbrev add_part : Option PendingCall → Option String → Option PendingCall
  add_part none part = none
  add_part (some p) part =
      some (record p { arguments_text = append p.arguments_text (or_blank part) })

  abbrev or_latest : Option TokenUsage → Option TokenUsage → Option TokenUsage
  or_latest none old = old
  or_latest (some u) old = some u

  unfoldable pub map_kimi_code_event : KimiEvent → KimiState → KimiMapped
  unfolding map_tool_call map_tool_result
  map_kimi_code_event (text_part text) s =
      (if str_eq (r.trim text) "" then [] else says text ∷ [], s)
  map_kimi_code_event think_part s = ([], record s { thinking_parts = s.thinking_parts + 1 })
  map_kimi_code_event other_part s = ([], s)
  map_kimi_code_event (kimi_call id name raw) s = map_tool_call id name raw s
  map_kimi_code_event (call_part part) s =
      ([], record s { pending_call = add_part s.pending_call part })
  map_kimi_code_event (kimi_result id output is_error peek) s =
      map_tool_result id output is_error peek s
  map_kimi_code_event (status_update u) s =
      ([], record s { latest_token_usage = or_latest u s.latest_token_usage })
  map_kimi_code_event (question_request id questions) s = (asks id questions ∷ [], s)
  map_kimi_code_event (approval_request action description) s = (
    notice (append "Kimi Code requested approval for " (append action (append ": " description)))
        ∷ [],
    s,
  )
  map_kimi_code_event step_interrupted s = ([], record s { interrupted = true })
  map_kimi_code_event (subagent_event kind) s =
      (notice (append "Kimi Code subagent event: " kind) ∷ [], s)
  map_kimi_code_event compaction_begin s = (notice "Kimi Code is compacting context." ∷ [], s)
  map_kimi_code_event compaction_end s = (notice "Kimi Code finished compacting context." ∷ [], s)
  map_kimi_code_event (parse_error message) s =
      fault (append "Kimi Code protocol error: " message) s
  map_kimi_code_event silent_event s = ([], s)

  -- The events of a turn, one after the other.
  unfoldable pub map_kimi_code : List KimiEvent → KimiState → KimiMapped
  unfolding map_kimi_code_event
  map_kimi_code [] s = ([], s)
  map_kimi_code (ev ∷ evs) s =
      let (out, s₁) = map_kimi_code_event ev s in
      let (rest, s₂) = map_kimi_code evs s₁ in (out ++ rest, s₂)
