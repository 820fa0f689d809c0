-- ===== src/Admission.antt =====
-- lib/agents/admission.ts: whether a pairing of a model and a harness is admitted, from what a trial
-- run observed. A JavaScript number is kept by what the code asks of it. `hash` is the SHA-256 digest
-- in hexadecimal, `show` writes a number.
pub mod Observed
pub mod Evidence
pub mod Sanitized
pub mod Approving
use Prim.Native.String.{◌++◌ as append}
use operator_oss.Base.{
  ℕ, zero, suc, ◌+◌, Bool, true, false, not, ◌&&◌, ◌||◌, Option, none, some, List, [], ◌∷◌, String,
  str_eq, ◌==◌, ltb, if◌then◌else◌, filter, length, is_some, map,
}
use operator_oss.Admission.Observed.{
  Artifact, Bridge, Call, CostStatus, Gate, Gates, Identity, Number, Observation, Reconciliation,
  ToolKind, ToolLoop, ToolResult, TrustedSource, Usage, command, edit, gateway, harness, incomplete,
  missing, provider, read, trusted, untrusted,
}

abbrev gate : Bool → String → String → Gate
gate passed yes_detail no_detail = record {
  passed = passed;
  detail = if passed then yes_detail else no_detail;
}

abbrev pub same_kind : ToolKind → ToolKind → Bool
same_kind read read = true
same_kind edit edit = true
same_kind command command = true
same_kind _ _ = false

abbrev pub kind_text : ToolKind → String
kind_text read = "read"
kind_text edit = "edit"
kind_text command = "command"

abbrev pub is_none : {A : Type 0} → List A → Bool
is_none [] = true
is_none (x ∷ xs) = false

unfoldable pub has_invalid : List Call → Bool
has_invalid [] = false
has_invalid (c ∷ cs) = not c.schema_valid || has_invalid cs

-- `successfulIds.has(call.id)` for one of the calls.
unfoldable pub succeeded : String → List ToolResult → Bool
succeeded id [] = false
succeeded id (r ∷ rs) = (not r.is_error && str_eq r.id id) || succeeded id rs

unfoldable pub has_paired : List Call → List ToolResult → Bool
unfolding succeeded
has_paired [] rs = false
has_paired (c ∷ cs) rs = succeeded c.id rs || has_paired cs rs

-- What is wrong with the calls of a kind, if anything.
unfoldable pub kind_fault : ToolLoop → ToolKind → Option String
unfolding has_invalid has_paired
kind_fault t kind =
    let calls = filter (λ c. same_kind c.kind kind) t.calls in
    if is_none calls
    then some (append "missing " (append (kind_text kind) " tool call"))
    else if has_invalid calls
    then some (append "invalid " (append (kind_text kind) " tool schema"))
    else if not (has_paired calls t.results)
    then some (append "missing successful paired " (append (kind_text kind) " tool result"))
    else none

abbrev first_fault : Option String → Option String → Option String
first_fault none f = f
first_fault (some f) g = some f

abbrev fault_gate : Option String → Gate
fault_gate none = record {
  passed = true;
  detail = "read, edit, and command calls had valid paired results";
}
fault_gate (some f) = record { passed = false; detail = f }

unfoldable pub tool_loop_gate : (ℕ → String) → ToolLoop → Gate
unfolding kind_fault
tool_loop_gate show t =
    if ltb 0 t.malformed_events
    then record {
      passed = false;
      detail = append (show t.malformed_events) " malformed tool event(s)";
    }
    else fault_gate
        (first_fault (kind_fault t read) (first_fault (kind_fault t edit) (kind_fault t command)))

abbrev pub is_incomplete : TrustedSource → Bool
is_incomplete incomplete = true
is_incomplete _ = false

abbrev pub is_trusted : CostStatus → Bool
is_trusted trusted = true
is_trusted _ = false

abbrev pub is_model : Option String → String → Bool
is_model none expected = false
is_model (some m) expected = str_eq m expected

abbrev pub is_amount : Number → Bool
is_amount n = n.is_finite && not n.is_negative

abbrev pub is_cost : Option Number → Bool
is_cost none = false
is_cost (some n) = is_amount n

-- One physical model, the expected one.
abbrev pub is_only : List String → String → Bool
is_only [] expected = false
is_only (m ∷ []) expected = str_eq m expected
is_only (m ∷ n ∷ ms) expected = false

unfoldable pub exact_identity : Observation → Bool
exact_identity o =
    str_eq o.identity.requested_alias o.alias
    && (is_model o.identity.resolved_model o.expected_resolved_model
        && (o.identity.fallback_free && not (is_incomplete o.identity.trusted_source)))

unfoldable pub bridge_passed : Bridge → Bool
bridge_passed b =
    not b.required
    || (b.tool_succeeded && (not b.interactive_ask_claimed || b.interactive_ask_succeeded))

unfoldable pub usage_passed : Observation → Bool
usage_passed o =
    is_amount o.usage.input_tokens
    && (is_amount o.usage.output_tokens
        && (is_trusted o.usage.cost_status
            && (is_cost o.usage.cost_usd
                && (o.reconciliation.complete
                    && (not (is_none o.reconciliation.generation_ids)
                        && (is_only o.reconciliation.physical_models o.expected_resolved_model
                            && is_cost o.reconciliation.provider_cost_usd))))))

abbrev text_or : Option String → String → String
text_or none s = s
text_or (some t) s = t

unfoldable pub gates_of : (ℕ → String) → Observation → Gates
unfolding exact_identity bridge_passed usage_passed tool_loop_gate
gates_of show o = record {
  identity =
      gate (exact_identity o)
        (append "exact alias resolved to " (text_or o.identity.resolved_model "null"))
        "alias, physical model, fallback policy, or trusted attribution was ambiguous";
  basic_turn =
      gate (o.streamed && o.coherent) "coherent result streamed through the harness"
        "streamed coherent result was not observed";
  tool_loop = tool_loop_gate show o.tool_loop;
  operator_bridge =
      gate (bridge_passed o.operator_bridge)
        (if not o.operator_bridge.required
          then "harness declares no Operator tool bridge; gate waived by capability"
          else "scoped Operator tool succeeded")
        "Operator tool or claimed interactive ask did not complete";
  repository_result =
      gate (o.disposable && (o.expected_edit_present && o.tests_passed))
        "disposable fixture contains the expected edit and its tests pass"
        "fixture was not disposable, expected edit was absent, or tests failed";
  resume =
      gate (o.same_session && o.planted_fact_recalled)
        "same session resumed and recalled the planted fact" "same-session recall was not proven";
  stop =
      gate
        (o.interrupt_requested
          && (o.stop_settled && (not o.task_busy && is_none o.surviving_processes)))
        "interrupt settled with no busy task or surviving process"
        "interrupt did not settle cleanly or a process survived";
  usage =
      gate (usage_passed o) "token usage and trusted metered cost are recorded"
        "token usage or trusted metered cost is incomplete";
  isolation =
      gate (o.task_state_isolated && (o.relay_credential_only && not o.ambient_credential_leak))
        "task state is isolated and only the loopback relay credential was exposed"
        "task state or credential isolation was not proven";
}

-- Object.values(gates).every((result) => result.passed)
unfoldable pub all_passed : Gates → Bool
all_passed g =
    g.identity.passed
    && (g.basic_turn.passed
        && (g.tool_loop.passed
            && (g.operator_bridge.passed
                && (g.repository_result.passed
                    && (g.resume.passed
                        && (g.stop.passed && (g.usage.passed && g.isolation.passed)))))))

abbrev hashed : (String → String) → Option String → Option String
hashed hash none = none
hashed hash (some id) = if str_eq id "" then none else some (hash id)

unfoldable pub reduce_admission : (String → String) → (ℕ → String) → Observation → Artifact
unfolding gates_of all_passed
reduce_admission hash show o = record {
  alias = o.alias;
  resolved_model = o.identity.resolved_model;
  passed = all_passed (gates_of show o);
  gates = gates_of show o;
  session_id_sha256 = hashed hash o.session_id;
  survivor_count = length o.surviving_processes;
}

pub data Approved : Type 0 where
  failed_artifact no_resolved_model : Approved
  approved : String → String → Approved  -- the alias and the model

unfoldable pub approval_record : Artifact → Approved
approval_record a = if not a.passed then failed_artifact else elim a.resolved_model [
  | none ↦ no_resolved_model
  | some m ↦ if str_eq m "" then no_resolved_model else approved a.alias m
]
