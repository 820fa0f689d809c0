-- ===== src/Runner/Landing.antt =====
-- lib/runner.ts: a driver whose results come after their tool events loses none of them in the runner.
use operator_oss.Base.{
  ℕ, ◌≡◌, refl, Bool, true, ◌&&◌, List, [], ◌∷◌, ◌++◌, String, arith, if◌then◌else◌, false, ap, sym,
  ◌∙◌,
}
use operator_oss.Maps.{has, get-set}
use operator_oss.Sets.{member, add, member-add}
use operator_oss.World.{World, ToolData}
use operator_oss.Runner.{Classifiers, Turn, take_failure}
use operator_oss.Runner.Events.{
  AgentEvent, session, model, says, tool_call, tool_result, asks, ask_answered, suggested, usage,
  notice, error, done, Outcome, next, threw, handle, Stream, ends, fails, yields,
}

-- The events that a driver gives.
unfoldable pub events_of : Stream → List AgentEvent
events_of ends = []
events_of (fails text) = []
events_of (yields meanwhile ev rest) = ev ∷ events_of rest

-- A result wants an id that had a tool event.
abbrev pub knows : List String → AgentEvent → Bool
knows seen (tool_result id content failed peek) = member id seen
knows seen _ = true

abbrev pub note : List String → AgentEvent → List String
note seen (tool_call id title detail peek diff) = add id seen
note seen _ = seen

-- Each result comes after a tool event with its id.
unfoldable pub is_answered : List String → List AgentEvent → Bool
is_answered seen [] = true
is_answered seen (e ∷ es) = knows seen e && is_answered (note seen e) es

-- What is cut off at the end does not matter.
is_answered-cut :
    (seen : List String) (xs ys : List AgentEvent)
    → is_answered seen (xs ++ ys) ≡ true
    → is_answered seen xs ≡ true
unfolding is_answered
is_answered-cut seen [] ys h = refl
is_answered-cut seen (e ∷ xs) ys h = ground (arith, is_answered-cut (note seen e) xs ys)

abbrev is_tool : AgentEvent → Bool
is_tool (tool_call id title detail peek diff) = true
is_tool (tool_result id content failed peek) = true
is_tool _ = false

-- The events about tools: drivers give others before, between and after those that they map.
unfoldable pub tool_events : List AgentEvent → List AgentEvent
tool_events [] = []
tool_events (e ∷ es) = if is_tool e then e ∷ tool_events es else tool_events es

pub is_answered-tool_events :
    (seen : List String) (es : List AgentEvent)
    → is_answered seen (tool_events es) ≡ is_answered seen es
unfolding is_answered tool_events
is_answered-tool_events seen [] = refl
is_answered-tool_events seen (tool_call id title detail peek diff ∷ es) =
    is_answered-tool_events (add id seen) es
is_answered-tool_events seen (tool_result id content failed peek ∷ es) =
    ground (arith, is_answered-tool_events seen es)
is_answered-tool_events seen (session sid ∷ es) = is_answered-tool_events seen es
is_answered-tool_events seen (model x ∷ es) = is_answered-tool_events seen es
is_answered-tool_events seen (says content ∷ es) = is_answered-tool_events seen es
is_answered-tool_events seen (asks id questions ∷ es) = is_answered-tool_events seen es
is_answered-tool_events seen (ask_answered id answers ∷ es) = is_answered-tool_events seen es
is_answered-tool_events seen (suggested title ∷ es) = is_answered-tool_events seen es
is_answered-tool_events seen (usage amount ∷ es) = is_answered-tool_events seen es
is_answered-tool_events seen (notice content ∷ es) = is_answered-tool_events seen es
is_answered-tool_events seen (error content ∷ es) = is_answered-tool_events seen es
is_answered-tool_events seen (done sid ∷ es) = is_answered-tool_events seen es

-- The tool events of a stream are a first part of those of a driver's mapping.
pub is_answered-part :
    (given mapped rest : List AgentEvent)
    → tool_events given ++ rest ≡ tool_events mapped
    → is_answered [] mapped ≡ true
    → is_answered [] given ≡ true
is_answered-part given mapped rest e h =
    sym (is_answered-tool_events [] given)
    ∙ is_answered-cut [] (tool_events given) rest
        (ap (is_answered []) e ∙ (is_answered-tool_events [] mapped ∙ h))

-- The ids with a tool event after some events.
unfoldable pub seen_after : List String → List AgentEvent → List String
seen_after seen [] = seen
seen_after seen (e ∷ es) = seen_after (note seen e) es

pub seen_after-append :
    (seen : List String) (xs ys : List AgentEvent)
    → seen_after seen (xs ++ ys) ≡ seen_after (seen_after seen xs) ys
unfolding seen_after
seen_after-append seen [] ys = refl
seen_after-append seen (e ∷ xs) ys = seen_after-append (note seen e) xs ys

pub is_answered-append :
    (seen : List String) (xs ys : List AgentEvent)
    → is_answered seen (xs ++ ys) ≡ (is_answered seen xs && is_answered (seen_after seen xs) ys)
unfolding is_answered seen_after
is_answered-append seen [] ys = refl
is_answered-append seen (e ∷ xs) ys = ground (arith, is_answered-append (note seen e) xs ys)

-- A result has a message in the transcript to land on.
abbrev lands : Turn → AgentEvent → Bool
lands t (tool_result id content failed peek) = has id t.tool_msgs
lands t _ = true

module _ (k : Classifiers) where
  -- Each result of the turn lands, up to where a store call throws.
  unfoldable pub ResultsLand : Turn → Stream → World → Type 0
  ResultsLand t ends w = Unit
  ResultsLand t (fails text) w = Unit
  ResultsLand t (yields meanwhile ev rest) w =
      (lands t ev ≡ true) × elim (handle k t ev (meanwhile w)) [
        | next t' w' ↦ ResultsLand t' rest w'
        | threw text t' w' ↦ Unit
      ]

  -- The ids have messages.
  abbrev AllKnown : List String → Turn → Type 0
  AllKnown seen t = (id : String) → member id seen ≡ true → has id t.tool_msgs ≡ true

  abbrev known_in : String → Outcome → Bool
  known_in i (next t w) = has i t.tool_msgs
  known_in i (threw text t w) = true

  handle_known :
      (seen : List String) (t : Turn) (ev : AgentEvent) (w : World) (i : String)
      → AllKnown seen t
      → member i (note seen ev) ≡ true
      → known_in i (handle k t ev w) ≡ true
  unfolding handle take_failure
  handle_known seen t (session sid) w i h m = ground (arith, h i, m)
  handle_known seen t (model x) w i h m = h i m
  handle_known seen t (says content) w i h m = ground (arith, h i, m)
  handle_known seen t (tool_call id title detail peek diff) w i h m =
      grind (arith, h i, m, member-add id i seen, λ (e : ℕ × ToolData). get-set id i e t.tool_msgs)
  handle_known seen t (tool_result id content failed peek) w i h m =
      grind (arith, h i, m, λ (e : ℕ × ToolData). get-set id i e t.tool_msgs)
  handle_known seen t (asks id questions) w i h m =
      grind (arith, h i, m, λ (e : ℕ × ToolData). get-set id i e t.tool_msgs)
  handle_known seen t (ask_answered id answers) w i h m =
      grind (arith, h i, m, λ (e : ℕ × ToolData). get-set id i e t.tool_msgs)
  handle_known seen t (suggested title) w i h m = h i m
  handle_known seen t (usage amount) w i h m = ground (arith, h i, m)
  handle_known seen t (notice content) w i h m = ground (arith, h i, m)
  handle_known seen t (error content) w i h m = ground (arith, h i, m)
  handle_known seen t (done sid) w i h m = h i m

  lands_lem :
      (seen : List String) (t : Turn) (ev : AgentEvent)
      → AllKnown seen t
      → knows seen ev ≡ true
      → lands t ev ≡ true
  lands_lem seen t (tool_result id content failed peek) h a = h id a
  lands_lem seen t (session sid) h a = refl
  lands_lem seen t (model x) h a = refl
  lands_lem seen t (says content) h a = refl
  lands_lem seen t (tool_call id title detail peek diff) h a = refl
  lands_lem seen t (asks id questions) h a = refl
  lands_lem seen t (ask_answered id answers) h a = refl
  lands_lem seen t (suggested title) h a = refl
  lands_lem seen t (usage amount) h a = refl
  lands_lem seen t (notice content) h a = refl
  lands_lem seen t (error content) h a = refl
  lands_lem seen t (done sid) h a = refl

  abbrev Follows : Stream → Outcome → Type 0
  Follows rest (next t w) = ResultsLand t rest w
  Follows rest (threw text t w) = Unit

  follow :
      (seen : List String) (rest : Stream) (o : Outcome)
      → ((i : String) → member i seen ≡ true → known_in i o ≡ true)
      → ((t : Turn) (w : World) → AllKnown seen t → ResultsLand t rest w)
      → Follows rest o
  follow seen rest (next t w) h g = g t w h
  follow seen rest (threw text t w) h g = tt

  pub none_seen : (t : Turn) → AllKnown [] t
  unfolding member
  none_seen t i m = absurd (cc)

  -- Where each result of a turn comes after its tool event, each result lands.
  pub answered-ResultsLand :
      (seen : List String) (t : Turn) (stream : Stream) (w : World)
      → AllKnown seen t
      → is_answered seen (events_of stream) ≡ true
      → ResultsLand t stream w
  unfolding ResultsLand is_answered events_of
  answered-ResultsLand seen t ends w h p = tt
  answered-ResultsLand seen t (fails text) w h p = tt
  answered-ResultsLand seen t (yields meanwhile ev rest) w h p = (
    lands_lem seen t ev h (ground (arith, p)),
    follow (note seen ev) rest (handle k t ev (meanwhile w))
        (λ i m. handle_known seen t ev (meanwhile w) i h m)
        (λ t' w' g. answered-ResultsLand (note seen ev) t' rest w' g (ground (arith, p))),
  )
