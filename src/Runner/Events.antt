-- ===== src/Runner/Events.antt =====
-- lib/runner.ts: the body of `run` before its `finally`: the set-up, the loop over the driver's
-- events, and the `catch` block. What a store call throws is the outcome `threw`.
use operator_oss.Base.{
  Bool, true, false, not, ◌&&◌, ◌||◌, Option, none, some, List, [], ◌∷◌, String, str_eq,
  if◌then◌else◌,
}
use operator_oss.Maps.{get, set}
use operator_oss.Sets.{add, remove}
use operator_oss.World.{
  World, ToolData, AskData, plain, tool_json, assistant, tool, system, in_progress, session_event,
  model_event, message_event, updated_event, suggested_event, usage_event, done_event, work_started,
  ask_needs_input, conversation, first_task_started, turn_started, update_task, publish,
  add_message, update_message, record_session, add_usage, queue_lifecycle, track,
}
use operator_oss.Runner.{Classifiers, Turn, take_failure}

-- StreamEvent of lib/types.ts; questions, answers, peeks, diffs and usage are opaque texts.
pub data AgentEvent : Type 0 where
  session : String → AgentEvent
  model : String → AgentEvent
  says : String → AgentEvent
  tool_call : String → String → Option String → Option String → Option String → AgentEvent
  tool_result : String → String → Bool → Option String → AgentEvent
  asks : String → String → AgentEvent
  ask_answered : String → String → AgentEvent
  suggested : String → AgentEvent
  usage : String → AgentEvent
  notice : String → AgentEvent
  error : String → AgentEvent
  done : Option String → AgentEvent

pub data Outcome : Type 0 where
  next : Turn → World → Outcome
  threw : String → Turn → World → Outcome

abbrev foreign_key : String
foreign_key = "FOREIGN KEY constraint failed"

abbrev or_else : Option String → Option String → Option String
or_else none old = old
or_else (some p) old = some p

abbrev with_result : String → Bool → Option String → ToolData → ToolData
with_result content failed peek d = record d {
  result = some content;
  is_error = some failed;
  peek = or_else peek d.peek;
}

abbrev pub answered : String → String → Option AskData → AskData
answered id answers none = record { ask_id = id; questions = ""; answers = some answers }
answered id answers (some a) = record a { answers = some answers }

abbrev pub is_empty : List String → Bool
is_empty [] = true
is_empty (x ∷ xs) = false

-- The registration of the conversation is queued once in a turn.
abbrev pub register : Turn → String → World → World
register t sid w =
    if not t.registered && t.registers then queue_lifecycle t.task_id (conversation sid) w else w

-- The task is started and in progress, and its first session is announced.
unfoldable pub open_task : Turn → String → World → World
open_task t sid w =
    let w₂ =
      update_task t.task_id (λ r. record r { started = true; status = in_progress })
        (register t sid w) in
    if t.was_started then w₂ else queue_lifecycle t.task_id (work_started t.gen) w₂

on_session : Turn → String → World → Outcome
on_session t sid w =
    let t' = record t {
      session_id = some sid;
      opened = true;
      registered = t.registered || t.registers;
    } in
    let w₃ = open_task t sid w in
    elim (record_session t.task_id t.gen sid w₃) [
      | none ↦ threw foreign_key t' w₃
      | some w₄ ↦ next t' (publish t.task_id (session_event sid) w₄)
    ]

on_tool : Turn → String → ToolData → World → Outcome
on_tool t id d w = elim (add_message t.task_id t.gen tool (tool_json d) w) [
  | none ↦ threw foreign_key t w
  | some (w', n) ↦
      next (record t { tool_msgs = set id (n, d) t.tool_msgs })
        (publish t.task_id (message_event tool n) w')
]

on_tool_result : Turn → String → String → Bool → Option String → World → Outcome
on_tool_result t id content failed peek w = elim (get id t.tool_msgs) [
  | none ↦ next t w
  | some (n, d) ↦
      next (record t { tool_msgs = set id (n, with_result content failed peek d) t.tool_msgs })
        (publish t.task_id (updated_event n)
          (update_message n (tool_json (with_result content failed peek d)) w))
]

abbrev pub asking : String → String → ToolData
asking id questions = record {
  title = "Question for you";
  detail = none;
  peek = none;
  diff = none;
  result = none;
  is_error = none;
  ask = some (record { ask_id = id; questions = questions; answers = none });
}

on_ask : Turn → String → String → World → Outcome
on_ask t id questions w =
    elim (add_message t.task_id t.gen tool (tool_json (asking id questions)) w) [
      | none ↦ threw foreign_key t w
      | some (w₁, n) ↦
          let w₂ = update_task t.task_id (λ r. record r { awaiting_input = true }) w₁ in
          let w₃ =
            if is_empty t.open_asks
            then queue_lifecycle t.task_id (ask_needs_input t.gen id) w₂
            else w₂ in
          next
            (record t {
              tool_msgs = set id (n, asking id questions) t.tool_msgs;
              open_asks = add id t.open_asks;
            })
            (publish t.task_id (message_event tool n) w₃)
    ]

on_ask_answered : Turn → String → String → World → Outcome
on_ask_answered t id answers w = elim (get id t.tool_msgs) [
  | none ↦ next t w
  | some (n, d) ↦
      let d' = record d { ask = some (answered id answers d.ask) } in
      let left = remove id t.open_asks in
      let w₁ = update_message n (tool_json d') w in
      let w₂ =
        if is_empty left
        then update_task t.task_id (λ r. record r { awaiting_input = false }) w₁
        else w₁ in
      next (record t { tool_msgs = set id (n, d') t.tool_msgs; open_asks = left })
        (publish t.task_id (updated_event n) w₂)
]

-- What the driver's stream delivers; between two items anything else in the process may run, which
-- `meanwhile` stands for.
pub data Stream : Type 0 where
  ends : Stream
  fails : String → Stream
  yields : (World → World) → AgentEvent → Stream → Stream

module _ (k : Classifiers) where
  unfoldable pub handle : Turn → AgentEvent → World → Outcome
  unfolding on_session on_tool on_tool_result on_ask on_ask_answered
  handle t (session sid) w = on_session t sid w
  handle t (model m) w = next t (
      publish t.task_id (model_event m)
        (update_task t.task_id (λ r. record r { resolved_model = some m }) w))
  handle t (says content) w = elim (add_message t.task_id t.gen assistant (plain content) w) [
    | none ↦ threw foreign_key t w
    | some (w', n) ↦ next t (publish t.task_id (message_event assistant n) w')
  ]
  handle t (tool_call id title detail peek diff) w =
      on_tool t id
        (record {
          title = title;
          detail = detail;
          peek = peek;
          diff = diff;
          result = none;
          is_error = none;
          ask = none;
        })
        w
  handle t (tool_result id content failed peek) w = on_tool_result t id content failed peek w
  handle t (asks id questions) w = on_ask t id questions w
  handle t (ask_answered id answers) w = on_ask_answered t id answers w
  handle t (suggested title) w = next t (publish t.task_id (suggested_event title) w)
  handle t (usage amount) w = elim (add_usage t.task_id amount w) [
    | none ↦ threw foreign_key t w
    | some w' ↦
        next (record t { turn_usage = some amount }) (publish t.task_id (usage_event amount) w')
  ]
  handle t (notice content) w = elim (add_message t.task_id t.gen system (plain content) w) [
    | none ↦ threw foreign_key t w
    | some (w', n) ↦ next t (publish t.task_id (message_event system n) w')
  ]
  handle t (error content) w = let (t', w') = take_failure k t content w in next t' w'
  handle t (done sid) w =
      next (record t { session_id = sid }) (publish t.task_id (done_event sid) w)

  unfoldable pub consume : Turn → Stream → World → Turn × World
  consume t ends w = (t, w)
  consume t (fails text) w = take_failure k t text w
  consume t (yields meanwhile ev rest) w = elim (handle t ev (meanwhile w)) [
    | next t' w' ↦ consume t' rest w'
    | threw text t' w' ↦ take_failure k t' text w'
  ]

-- The head of the `try` block: the clock's anchor, the funnel's events and the sync notice.
unfoldable pub set_up : Turn → Bool → String → World → Outcome
set_up t resume sync_note w =
    let w₁ = update_task t.task_id (λ r. record r { turn_started_at = some t.started_at }) w in
    let w₂ =
      if w₁.first_task
      then w₁
      else track t.task_id first_task_started (record w₁ { first_task = true }) in
    let w₃ = track t.task_id (turn_started t.gen resume) w₂ in
    if str_eq sync_note ""
    then next t w₃
    else elim (add_message t.task_id t.gen system (plain sync_note) w₃) [
      | none ↦ threw foreign_key t w₃
      | some (w₄, n) ↦ next t (publish t.task_id (message_event system n) w₄)
    ]
