-- ===== src/Tests/KimiRuns.antt =====
-- A turn of Kimi Code with one call, whose arguments come in parts, in the runner.
use operator_oss.Base.{◌≡◌, refl, true, false, none, some, List, [], ◌∷◌, ◌++◌}
use operator_oss.Maps.{get, set, delete}
use operator_oss.Runner.Events.{model, done, session, tool_call, tool_result, Stream, yields, ends}
use operator_oss.Runner.Landing.{tool_events, events_of, ResultsLand}
use operator_oss.Kimi.{
  KimiText, KimiEvent, Parsed, new_kimi_code_state, map_kimi_code, map_kimi_code_event,
  map_tool_call, map_tool_result, flush_pending_call, tool_args, described_kimi_tool, kimi_call,
  call_part, kimi_result,
}
use operator_oss.Kimi.Answered.{all_parse, parses, map_kimi_code-ResultsLand}
use operator_oss.Tests.RunnerRuns.{classifiers, turn, world}

abbrev plain : KimiText
plain = record {
  trim = λ s. s;
  clip = λ s. s;
  parse = λ s. Parsed.object s;
  edit_arguments = λ s. s;
  describe_tool_use =
      λ name args. record { title = name; detail = some args; peek = none; diff = none };
}

abbrev events : List KimiEvent
events =
    kimi_call "1" "Shell" none
    ∷ call_part (some "{\"command\":")
    ∷ call_part (some "\"ls\"}")
    ∷ kimi_result "1" "a.ts" false none
    ∷ []

abbrev stream : Stream
stream =
    yields (λ w. w) (session "s")
      (yields (λ w. w) (model "m")
        (yields (λ w. w) (tool_call "1" "Bash" (some "{\"command\":\"ls\"}") none none)
          (yields (λ w. w) (tool_result "1" "a.ts" false none)
            (yields (λ w. w) (done (some "s")) ends))))

stream_is :
    tool_events (events_of stream) ++ []
    ≡ tool_events (map_kimi_code plain events new_kimi_code_state).0
unfolding tool_events events_of map_kimi_code map_kimi_code_event map_tool_call map_tool_result
    flush_pending_call tool_args described_kimi_tool new_kimi_code_state get set delete
stream_is = refl

parsed : all_parse plain events ≡ true
unfolding all_parse parses
parsed = refl

map_kimi_code-ResultsLand_example : ResultsLand classifiers turn stream world
map_kimi_code-ResultsLand_example =
    map_kimi_code-ResultsLand classifiers plain events turn stream [] world parsed stream_is
