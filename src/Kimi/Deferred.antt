-- ===== src/Kimi/Deferred.antt =====
-- lib/agents/kimi-code/events.ts: a call that is open has had its tool event, or has it deferred.
use Prim.Native.String.{◌++◌ as append}
use operator_oss.Base.{
  ◌≡◌, refl, ◌∙◌, inl, inr, Bool, true, false, ◌||◌, Option, none, some, List, [], ◌∷◌, ◌++◌,
  String, str_eq, arith, Bool-cases, Option-cases,
}
use operator_oss.Maps.{delete, has, get-delete}
use operator_oss.Sets.{member, member-add}
use operator_oss.Runner.Events.{AgentEvent, tool_result}
use operator_oss.Runner.Landing.{
  note, knows, seen_after, seen_after-append, is_answered, is_answered-append,
}
use operator_oss.Kimi.{
  KimiState, KimiText, KimiMapped, PendingCall, diagnostic, tool_args, flush_pending_call,
  map_tool_result, fault,
}

abbrev pub is_deferred : Option PendingCall → String → Bool
is_deferred none id = false
is_deferred (some p) id = str_eq p.id id

-- A call that is open has had its tool event, or its tool event is deferred.
abbrev pub IsShown : List String → KimiState → Type 0
IsShown seen s =
    (id : String) → has id s.calls ≡ true → (member id seen || is_deferred s.pending_call id) ≡ true

-- What a mapper gives is answered, and keeps that.
pub record IsStep (seen : List String) (m : KimiMapped) : Type 0 where
  pub answered : is_answered seen m.0 ≡ true
  pub shown : IsShown (seen_after seen m.0) m.1

pub diagnostic_lem :
    (message : String) (s : KimiState)
    → ((diagnostic message s).calls ≡ s.calls)
      × ((diagnostic message s).pending_call ≡ s.pending_call)
unfolding diagnostic
diagnostic_lem message s = (ground arith, ground arith)

-- One more event after those of a mapper.
pub then_event :
    (seen : List String) (out : List AgentEvent) (e : AgentEvent) (s : KimiState)
    → is_answered seen out ≡ true
    → knows (seen_after seen out) e ≡ true
    → IsShown (note (seen_after seen out) e) s
    → IsStep seen (out ++ (e ∷ []), s)
unfolding is_answered seen_after
then_event seen out e s a k h = record {
  answered = is_answered-append seen out (e ∷ []) ∙ ground (arith, a, k);
  shown = rw (seen_after-append seen out (e ∷ [])) h;
}

module _ (r : KimiText) where
  pub tool_args_lem :
      (raw id : String) (s : KimiState)
      → ((tool_args r raw id s).1.calls ≡ s.calls)
        × ((tool_args r raw id s).1.pending_call ≡ s.pending_call)
  unfolding tool_args diagnostic
  tool_args_lem raw id s = (ground arith, ground arith)

  pub fault-IsStep :
      (seen : List String) (message : String) (s : KimiState)
      → IsShown seen s
      → IsStep seen (fault r message s)
  unfolding is_answered seen_after diagnostic
  fault-IsStep seen message s h = record {
    answered = refl;
    shown = λ i k. ground (arith, h i, k, diagnostic_lem message s);
  }

  -- After a flush no tool event is deferred.
  pub record IsFlushed (seen : List String) (s : KimiState) (m : KimiMapped) : Type 0 where
    pub answered : is_answered seen m.0 ≡ true
    pub calls : m.1.calls ≡ s.calls
    pub none_deferred : m.1.pending_call ≡ none
    pub shown : (id : String) → has id s.calls ≡ true → member id (seen_after seen m.0) ≡ true

  pub flush_pending_call-IsFlushed :
      (seen : List String) (s : KimiState)
      → IsShown seen s
      → IsFlushed seen s (flush_pending_call r s)
  unfolding flush_pending_call is_answered seen_after
  flush_pending_call-IsFlushed seen s h = elim (Option-cases s.pending_call) [
    | inl calm ↦
        rw (calm, flush_pending_call)
          (record {
            answered = refl;
            calls = refl;
            none_deferred = calm;
            shown = λ id k. ground (arith, h id k);
          })
    | inr (p, waits) ↦
        let a = tool_args_lem p.arguments_text p.id (record s { pending_call = none }) in
        rw (waits, flush_pending_call)
          (record {
            answered = refl;
            calls = a.0;
            none_deferred = a.1;
            shown = λ id k. ground (arith, h id k, member-add p.id id seen);
          })
  ]

  pub map_tool_result-IsStep :
      (seen : List String) (id output : String) (failed : Bool) (peek : Option String)
      (s : KimiState)
      → IsShown seen s
      → IsStep seen (map_tool_result r id output failed peek s)
  unfolding map_tool_result
  map_tool_result-IsStep seen id output failed peek s h =
      let out = (flush_pending_call r s).0 in
      let s₁ = (flush_pending_call r s).1 in
      let f = flush_pending_call-IsFlushed seen s h in
      elim (Bool-cases (has id s.calls)) [
        | inl known ↦
            rw (f.calls, known, map_tool_result)
              (then_event seen out (tool_result id (r.clip output) failed peek)
                (record s₁ { calls = delete id s.calls }) f.answered (f.shown id known)
                (λ i k. ground (arith, f.shown i, get-delete id i s.calls, k)))
        | inr orphan ↦
            rw (f.calls, orphan, map_tool_result)
              (then_event seen out _ _ f.answered refl (λ i k. ground (
                arith,
                f.shown i,
                k,
                f.calls,
                diagnostic_lem (append "Kimi Code emitted orphan tool result " id) s₁,
              )))
      ]
