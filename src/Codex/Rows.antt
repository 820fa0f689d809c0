-- ===== src/Codex/Rows.antt =====
-- lib/agents/codex/events.ts with lib/runner.ts: a turn of codex in the runner.
use operator_oss.Base.{◌≡◌, refl, true, List, [], ◌∷◌, ◌++◌, String, arith}
use operator_oss.World.{World}
use operator_oss.Runner.{Classifiers, Turn}
use operator_oss.Runner.Events.{
  AgentEvent, session, model, says, tool_call, tool_result, asks, ask_answered, suggested, usage,
  notice, error, done, Stream,
}
use operator_oss.Runner.Landing.{
  events_of, tool_events, is_answered-part, ResultsLand, knows, note, is_answered,
  answered-ResultsLand, none_seen,
}
use operator_oss.Codex.{Rendering, ThreadEvent, new_state, map_thread}
use operator_oss.Codex.Pairing.{admits, is_paired, map_thread_paired}

admits-knows : (seen : List String) (e : AgentEvent) → admits seen e ≡ true → knows seen e ≡ true
admits-knows seen (tool_result id content failed peek) h = h
admits-knows seen (session sid) h = refl
admits-knows seen (model x) h = refl
admits-knows seen (says content) h = refl
admits-knows seen (tool_call id title detail peek diff) h = refl
admits-knows seen (asks id questions) h = refl
admits-knows seen (ask_answered id answers) h = refl
admits-knows seen (suggested title) h = refl
admits-knows seen (usage amount) h = refl
admits-knows seen (notice content) h = refl
admits-knows seen (error content) h = refl
admits-knows seen (done sid) h = refl

paired-answered :
    (seen : List String) (es : List AgentEvent)
    → is_paired seen es ≡ true
    → is_answered seen es ≡ true
unfolding is_paired is_answered
paired-answered seen [] h = refl
paired-answered seen (e ∷ es) h =
    let a = admits-knows seen e (ground (arith, h)) in
    rw a (paired-answered (note seen e) es (ground (arith, h)))

module _ (k : Classifiers) where
  -- In a turn of codex, whatever else the process does between two events, each result of a tool that
  -- the runner gets, up to where a store call throws, finds the message of its tool, so that none is
  -- dropped. The turn may be cut short anywhere, and the driver may give events that are not about
  -- tools, like its model first and its end last, anywhere between those that it maps.
  pub map_thread-ResultsLand :
      (r : Rendering) (evs : List ThreadEvent) (model_name : String) (t : Turn) (stream : Stream)
      (rest : List AgentEvent) (w : World)
      → tool_events (events_of stream) ++ rest
        ≡ tool_events (map_thread r evs (new_state model_name))
      → ResultsLand k t stream w
  map_thread-ResultsLand r evs model_name t stream rest w e =
      answered-ResultsLand k [] t stream w (none_seen k t) (
        is_answered-part (events_of stream) (map_thread r evs (new_state model_name)) rest e (
          paired-answered [] (map_thread r evs (new_state model_name))
            (map_thread_paired r evs model_name)))
