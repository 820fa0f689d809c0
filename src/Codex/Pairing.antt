-- ===== src/Codex/Pairing.antt =====
-- lib/agents/codex/events.ts: an item has one row, which later events update.
use operator_oss.Base.{
  ◌≡◌, refl, sym, ◌∙◌, inl, inr, Bool, true, false, not, ◌&&◌, Option, none, List, [], ◌∷◌, ◌++◌,
  append-nil, String, str_eq, eq_refl, if◌then◌else◌, arith, Bool-cases,
}
use operator_oss.Sets.{member, member-add}
use operator_oss.Runner.Events.{AgentEvent, tool_call, tool_result}
use operator_oss.Runner.Landing.{note, seen_after, seen_after-append}
use operator_oss.Codex.{
  Phase, is_completed, Item, ThreadEvent, MapState, Rendering, Mapped, Change, Command, McpCall,
  Todo, new_state, tool_once, map_command, map_file_change, map_mcp, map_todo, map_item,
  map_thread_event, map_thread, agent_message, reasoning, command_execution, file_change,
  mcp_tool_call, web_search, todo_list, error_item, unknown_item, thread_started, turn_completed,
  turn_failed, stream_error, item, unknown_event,
}

-- A tool event wants an id that no tool event had yet, a result one that had one.
abbrev pub admits : List String → AgentEvent → Bool
admits seen (tool_call id title detail peek diff) = not (member id seen)
admits seen (tool_result id content failed peek) = member id seen
admits seen _ = true

-- No tool event repeats an id, and each result has the id of a tool event before it.
unfoldable pub is_paired : List String → List AgentEvent → Bool
is_paired seen [] = true
is_paired seen (e ∷ es) = admits seen e && is_paired (note seen e) es

is_paired-append :
    (seen : List String) (xs ys : List AgentEvent)
    → is_paired seen (xs ++ ys) ≡ (is_paired seen xs && is_paired (seen_after seen xs) ys)
unfolding is_paired seen_after
is_paired-append seen [] ys = refl
is_paired-append seen (e ∷ xs) ys = ground (arith, is_paired-append (note seen e) xs ys)

-- What a mapper gives is paired, and its state has the tool ids that it gave.
record IsStep (s : MapState) (m : Mapped) : Type 0 where
  paired : is_paired s.emitted_tool m.0 ≡ true
  emitted : m.1.emitted_tool ≡ seen_after s.emitted_tool m.0

quiet-IsStep : (s : MapState) → IsStep s ([], s)
unfolding is_paired seen_after
quiet-IsStep s = record { paired = refl; emitted = refl }

-- After tool_once the id is known, so that a result may follow.
tool_once_lem :
    (id title detail : String) (peek : Option String) (s : MapState)
    → IsStep s (tool_once id title detail peek s)
      × (member id (tool_once id title detail peek s).1.emitted_tool ≡ true)
unfolding tool_once is_paired seen_after
tool_once_lem id title detail peek s = elim (Bool-cases (member id s.emitted_tool)) [
  | inl known ↦ rw (known, tool_once) (quiet-IsStep s, known)
  | inr new ↦ (
    record { paired = ground (arith, new); emitted = ground (arith, new) },
    ground (arith, new, member-add id id s.emitted_tool, eq_refl id),
  )
]

then_result :
    (id content : String) (failed : Bool) (peek : Option String) (told : Bool) (s : MapState)
    (m : Mapped)
    → IsStep s m
    → member id m.1.emitted_tool ≡ true
    → IsStep s (m.0 ++ (if told then tool_result id content failed peek ∷ [] else []), m.1)
unfolding is_paired seen_after
then_result id content failed peek false s m h k = record {
  paired = rw (append-nil m.0) h.paired;
  emitted = rw (append-nil m.0) h.emitted;
}
then_result id content failed peek true s m h k =
    let last = tool_result id content failed peek ∷ [] in
    record {
      paired = ground (arith, is_paired-append s.emitted_tool m.0 last, h.paired, h.emitted, k);
      emitted = h.emitted ∙ sym (seen_after-append s.emitted_tool m.0 last);
    }

if-IsStep :
    (b : Bool) (s : MapState) (m : Mapped) → IsStep s m → IsStep s (if b then m else ([], s))
if-IsStep true s m h = h
if-IsStep false s m h = quiet-IsStep s

module _ (r : Rendering) where
  map_command-IsStep :
      (phase : Phase) (id : String) (c : Command) (s : MapState)
      → IsStep s (map_command r phase id c s)
  unfolding map_command
  map_command-IsStep phase id c s =
      let (h, k) = tool_once_lem id _ _ none s in then_result id _ _ _ _ s _ h k

  map_file_change-IsStep :
      (phase : Phase) (id : String) (cs : List Change) (failed : Bool) (s : MapState)
      → IsStep s (map_file_change r phase id cs failed s)
  unfolding map_file_change
  map_file_change-IsStep phase id cs failed s =
      let (h, k) = tool_once_lem id _ _ _ s in then_result id _ _ _ _ s _ h k

  map_mcp-IsStep :
      (phase : Phase) (id : String) (c : McpCall) (s : MapState) → IsStep s (map_mcp r phase id c s)
  unfolding map_mcp
  map_mcp-IsStep phase id c s =
      elim (Bool-cases (str_eq c.server "orchestrator" && str_eq c.tool "ask_user")) [
        | inl card ↦ rw (card, map_mcp) (quiet-IsStep s)
        | inr plain ↦
            let (h, k) = tool_once_lem id _ _ none s in
            rw (plain, map_mcp) (then_result id _ _ _ _ s _ h k)
      ]

  map_todo-IsStep :
      (id : String) (items : List Todo) (s : MapState) → IsStep s (map_todo r id items s)
  unfolding map_todo is_paired seen_after
  map_todo-IsStep id items s = record { paired = ground arith; emitted = ground arith }

  map_item-IsStep : (phase : Phase) (i : Item) (s : MapState) → IsStep s (map_item r phase i s)
  unfolding map_item is_paired seen_after
  map_item-IsStep phase (agent_message text) s = record {
    paired = ground arith;
    emitted = ground arith;
  }
  map_item-IsStep phase (reasoning id text) s =
      if-IsStep (is_completed phase && not (str_eq (r.trim text) "")) s _
        (tool_once_lem id _ _ _ s).0
  map_item-IsStep phase (command_execution id c) s = map_command-IsStep phase id c s
  map_item-IsStep phase (file_change id cs failed) s = map_file_change-IsStep phase id cs failed s
  map_item-IsStep phase (mcp_tool_call id c) s = map_mcp-IsStep phase id c s
  map_item-IsStep phase (web_search id query) s = (tool_once_lem id _ query none s).0
  map_item-IsStep phase (todo_list id items) s = map_todo-IsStep id items s
  map_item-IsStep phase (error_item message) s = record { paired = refl; emitted = refl }
  map_item-IsStep phase unknown_item s = quiet-IsStep s

  map_thread_event-IsStep : (ev : ThreadEvent) (s : MapState) → IsStep s (map_thread_event r ev s)
  unfolding map_thread_event is_paired seen_after
  map_thread_event-IsStep (thread_started id) s = record { paired = refl; emitted = refl }
  map_thread_event-IsStep (turn_completed u) s = record { paired = refl; emitted = refl }
  map_thread_event-IsStep (turn_failed message) s = record { paired = refl; emitted = refl }
  map_thread_event-IsStep (stream_error message) s = record { paired = refl; emitted = refl }
  map_thread_event-IsStep (item phase i) s = map_item-IsStep phase i s
  map_thread_event-IsStep unknown_event s = quiet-IsStep s

  from_here :
      (evs : List ThreadEvent) (s : MapState) → is_paired s.emitted_tool (map_thread r evs s) ≡ true
  unfolding map_thread is_paired
  from_here [] s = refl
  from_here (ev ∷ evs) s =
      let m = map_thread_event r ev s in
      let h = map_thread_event-IsStep ev s in
      ground (
        arith,
        is_paired-append s.emitted_tool m.0 (map_thread r evs m.1),
        h.paired,
        h.emitted,
        from_here evs m.1,
      )

  -- Whatever events a turn of codex has, in whatever order its items start, change and end, the
  -- runner gets one tool event at most for each id, and no result before the tool event of its id.
  pub map_thread_paired :
      (evs : List ThreadEvent) (model : String)
      → is_paired [] (map_thread r evs (new_state model)) ≡ true
  unfolding new_state
  map_thread_paired evs model = from_here evs (new_state model)
