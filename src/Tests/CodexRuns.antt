-- ===== src/Tests/CodexRuns.antt =====
-- lib/agents/codex/events.ts: a command that is seen three times.
use operator_oss.Base.{◌≡◌, refl, true, false, none, some, List, [], ◌∷◌, ◌++◌}
use operator_oss.Runner.Events.{model, done, tool_call, tool_result, says, Stream, yields, ends}
use operator_oss.Sets.{member, add}
use operator_oss.Codex.{
  Rendering, Command, ThreadEvent, started, updated, completed, agent_message, command_execution,
  item, new_state, map_thread,
}
use operator_oss.Runner.Landing.{tool_events, events_of, ResultsLand}
use operator_oss.Codex.Rows.{map_thread-ResultsLand}
use operator_oss.Tests.RunnerRuns.{classifiers, turn, world}
use operator_oss.Codex.Pairing.{is_paired, map_thread_paired}

abbrev plain : Rendering
plain = record {
  trim = λ s. s;
  clip = λ s. s;
  clip_result = λ s. s;
  first_line = λ s. s;
  base_name = λ s. s;
  show = λ n. "2";
  lines_of = λ s. s ∷ [];
  output_peek = λ s. s;
  lines_peek = λ ls n. "";
  todos_peek = λ ts. "";
  usage_text = λ m u n. m;
}

abbrev list_files : Command
list_files = record {
  command = "ls";
  aggregated_output = some "a.ts";
  failed = false;
  exit_code = some 0;
}

abbrev events : List ThreadEvent
events =
    item started (command_execution "1" list_files)
    ∷ item updated (command_execution "1" list_files)
    ∷ item completed (command_execution "1" list_files)
    ∷ item completed (agent_message "done")
    ∷ []

one_row : map_thread plain events (new_state "m") ≡ (
    tool_call "1" "❯ ls" (some "ls") none none
    ∷ tool_result "1" "a.ts" false (some "a.ts")
    ∷ says "done"
    ∷ [])
unfolding map_thread new_state member add
one_row = refl

map_thread_paired_example : is_paired [] (map_thread plain events (new_state "m")) ≡ true
map_thread_paired_example = map_thread_paired plain events "m"

abbrev stream : Stream
stream =
    yields (λ w. w) (model "m")
      (yields (λ w. w) (tool_call "1" "❯ ls" (some "ls") none none)
        (yields (λ w. w) (tool_result "1" "a.ts" false (some "a.ts"))
          (yields (λ w. w) (done (some "s")) ends)))

-- The turn ends before the last message.
stream_is :
    tool_events (events_of stream) ++ [] ≡ tool_events (map_thread plain events (new_state "m"))
unfolding tool_events map_thread new_state member add events_of
stream_is = refl

map_thread-ResultsLand_example : ResultsLand classifiers turn stream world
map_thread-ResultsLand_example =
    map_thread-ResultsLand classifiers plain events "m" turn stream [] world stream_is
