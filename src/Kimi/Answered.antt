-- ===== src/Kimi/Answered.antt =====
-- lib/agents/kimi-code/events.ts with lib/runner.ts: a result comes after the tool event of its call.
use operator_oss.Base.{
  ◌≡◌, refl, ◌∙◌, inl, inr, Bool, true, false, ◌&&◌, Option, none, some, List, [], ◌∷◌, ◌++◌,
  String, str_eq, arith, Bool-cases, Option-cases,
}
use operator_oss.Maps.{get, set, has, get-set}
use operator_oss.Sets.{member-add}
use operator_oss.World.{World}
use operator_oss.Runner.{Classifiers, Turn}
use operator_oss.Runner.Events.{AgentEvent, Stream}
use operator_oss.Runner.Landing.{
  seen_after, is_answered, is_answered-append, events_of, tool_events, is_answered-part,
  ResultsLand, answered-ResultsLand, none_seen,
}
use operator_oss.Kimi.{
  KimiEvent, KimiState, KimiText, Parsed, object, new_kimi_code_state, tool_args, at_once,
  flush_pending_call, map_tool_call, map_kimi_code_event, map_kimi_code, tool_event_for,
}
use operator_oss.Kimi.Deferred.{
  IsShown, IsStep, then_event, tool_args_lem, fault-IsStep, flush_pending_call-IsFlushed,
  map_tool_result-IsStep,
}

abbrev is_object : Parsed → Bool
is_object (object args) = true
is_object _ = false

module _ (r : KimiText) where
  -- The arguments that come with a call are an object.
  unfoldable pub parses : KimiEvent → Bool
  parses (KimiEvent.kimi_call id name raw) = elim (at_once r raw) [
    | none ↦ true
    | some text ↦ is_object (r.parse text)
  ]
  parses _ = true

  tool_args_parses :
      (text id : String) (s : KimiState)
      → is_object (r.parse text) ≡ true
      → (args : String) × ((tool_args r text id s).0 ≡ some args)
  unfolding tool_args
  tool_args_parses text id s p = elim (Option-cases (tool_args r text id s).0) [
    | inl bad ↦ ground (arith, p, bad)
    | inr good ↦ good
  ]

  map_tool_call-IsStep :
      (seen : List String) (id name : String) (raw : Option String) (s : KimiState)
      → IsShown seen s
      → parses (KimiEvent.kimi_call id name raw) ≡ true
      → IsStep seen (map_tool_call r id name raw s)
  unfolding map_tool_call parses
  map_tool_call-IsStep seen id name raw s h p =
      let out = (flush_pending_call r s).0 in
      let s₁ = (flush_pending_call r s).1 in
      let f = flush_pending_call-IsFlushed r seen s h in
      elim (Bool-cases (str_eq id "")) [
        | inl blank ↦ rw (blank, map_tool_call) (fault-IsStep r seen _ s h)
        | inr named ↦ elim (Bool-cases (has id s.calls)) [
          | inl twice ↦ rw (named, twice, map_tool_call) (fault-IsStep r seen _ s h)
          | inr new ↦ elim (Option-cases (at_once r raw)) [
            | inl later ↦
                rw (named, new, later, map_tool_call)
                  (record {
                    answered = f.answered;
                    shown =
                        λ i k. ground (arith, get-set id i name s₁.calls, f.calls, f.shown i, k);
                  })
            | inr (text, now) ↦
                let s₂ : KimiState = record s₁ { calls = set id name s₁.calls } in
                let (args, object_it) = tool_args_parses text id s₂ (ground (arith, p, now)) in
                let a = tool_args_lem r text id s₂ in
                rw (named, new, now, object_it, map_tool_call)
                  (then_event seen out (tool_event_for r id name args) (tool_args r text id s₂).1
                    f.answered refl
                    (λ i k. ground (
                      arith,
                      get-set id i name s₁.calls,
                      f.calls,
                      f.shown i,
                      k,
                      a,
                      member-add id i (seen_after seen out),
                    )))
          ]
        ]
      ]

  map_kimi_code_event-IsStep :
      (seen : List String) (ev : KimiEvent) (s : KimiState)
      → IsShown seen s
      → parses ev ≡ true
      → IsStep seen (map_kimi_code_event r ev s)
  unfolding map_kimi_code_event is_answered seen_after
  map_kimi_code_event-IsStep seen (KimiEvent.text_part text) s h p =
      elim (Bool-cases (str_eq (r.trim text) "")) [
        | inl blank ↦ rw blank (record { answered = refl; shown = h })
        | inr spoken ↦ rw spoken (record { answered = refl; shown = h })
      ]
  map_kimi_code_event-IsStep seen KimiEvent.think_part s h p = record { answered = refl; shown = h }
  map_kimi_code_event-IsStep seen KimiEvent.other_part s h p = record { answered = refl; shown = h }
  map_kimi_code_event-IsStep seen (KimiEvent.kimi_call id name raw) s h p =
      map_tool_call-IsStep seen id name raw s h p
  map_kimi_code_event-IsStep seen (KimiEvent.call_part part) s h p = record {
    answered = refl;
    shown = λ i k. ground (arith, h i, k);
  }
  map_kimi_code_event-IsStep seen (KimiEvent.kimi_result id output failed peek) s h p =
      map_tool_result-IsStep r seen id output failed peek s h
  map_kimi_code_event-IsStep seen (KimiEvent.status_update u) s h p = record {
    answered = refl;
    shown = h;
  }
  map_kimi_code_event-IsStep seen (KimiEvent.question_request id questions) s h p = record {
    answered = refl;
    shown = h;
  }
  map_kimi_code_event-IsStep seen (KimiEvent.approval_request action description) s h p = record {
    answered = refl;
    shown = h;
  }
  map_kimi_code_event-IsStep seen KimiEvent.step_interrupted s h p = record {
    answered = refl;
    shown = h;
  }
  map_kimi_code_event-IsStep seen (KimiEvent.subagent_event kind) s h p = record {
    answered = refl;
    shown = h;
  }
  map_kimi_code_event-IsStep seen KimiEvent.compaction_begin s h p = record {
    answered = refl;
    shown = h;
  }
  map_kimi_code_event-IsStep seen KimiEvent.compaction_end s h p = record {
    answered = refl;
    shown = h;
  }
  map_kimi_code_event-IsStep seen (KimiEvent.parse_error message) s h p = fault-IsStep r seen _ s h
  map_kimi_code_event-IsStep seen KimiEvent.silent_event s h p = record {
    answered = refl;
    shown = h;
  }

  unfoldable pub all_parse : List KimiEvent → Bool
  unfolding parses
  all_parse [] = true
  all_parse (ev ∷ evs) = parses ev && all_parse evs

  map_kimi_code-answered :
      (seen : List String) (evs : List KimiEvent) (s : KimiState)
      → IsShown seen s
      → all_parse evs ≡ true
      → is_answered seen (map_kimi_code r evs s).0 ≡ true
  unfolding map_kimi_code all_parse is_answered
  map_kimi_code-answered seen [] s h p = refl
  map_kimi_code-answered seen (ev ∷ evs) s h p =
      let m = map_kimi_code_event r ev s in
      let st = map_kimi_code_event-IsStep seen ev s h (ground (arith, p)) in
      is_answered-append seen m.0 (map_kimi_code r evs m.1).0
      ∙ ground (
        arith,
        st.answered,
        map_kimi_code-answered (seen_after seen m.0) evs m.1 st.shown (ground (arith, p)),
      )

module _ (k : Classifiers) where
  -- In a turn of Kimi Code, where the arguments that come with a call are a JSON object, and whatever
  -- else the process does between two events, each result of a tool that the runner gets, up to where
  -- a store call throws, finds the message of its tool, also where the call's arguments came in parts.
  -- The turn may be cut short anywhere, and the driver may give events that are not about tools, like
  -- its session and model first and its end last, anywhere between those that it maps.
  pub map_kimi_code-ResultsLand :
      (r : KimiText) (evs : List KimiEvent) (t : Turn) (stream : Stream) (rest : List AgentEvent)
      (w : World)
      → all_parse r evs ≡ true
      → tool_events (events_of stream) ++ rest
        ≡ tool_events (map_kimi_code r evs new_kimi_code_state).0
      → ResultsLand k t stream w
  unfolding new_kimi_code_state get
  map_kimi_code-ResultsLand r evs t stream rest w p e =
      answered-ResultsLand k [] t stream w (none_seen k t) (
        is_answered-part (events_of stream) (map_kimi_code r evs new_kimi_code_state).0 rest e
          (map_kimi_code-answered r [] evs new_kimi_code_state (λ id h. absurd (cc)) p))
