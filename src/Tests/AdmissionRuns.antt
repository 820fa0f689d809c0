-- ===== src/Tests/AdmissionRuns.antt =====
-- lib/agents/admission.ts on a run that passes every gate.
use operator_oss.Base.{ℕ, ◌≡◌, refl, Bool, true, false, some, [], ◌∷◌, String, str_eq}
use operator_oss.Admission.{reduce_admission, approval_record, approved, failed_artifact}
use operator_oss.Admission.Observed.{
  Observation, Number, read, edit, command, provider, trusted, Call, ToolKind, ToolResult,
}
use operator_oss.Admission.Evidence.{Value, object, field, end, text, null}
use operator_oss.Admission.Approving.{IsProven, approval_record-IsProven}

abbrev amount : Number
amount = record { is_finite = true; is_negative = false; text = "1" }

abbrev call : String → ToolKind → Call
call id kind = record { id = id; kind = kind; schema_valid = true }

abbrev fine : String → ToolResult
fine id = record { id = id; is_error = false }

abbrev good : Observation
good = record {
  alias = "fast";
  expected_resolved_model = "m-1";
  session_id = some "s";
  identity = record {
    requested_alias = "fast";
    resolved_model = some "m-1";
    fallback_free = true;
    trusted_source = provider;
  };
  streamed = true;
  coherent = true;
  tool_loop = record {
    calls = call "1" read ∷ call "2" edit ∷ call "3" command ∷ [];
    results = fine "1" ∷ fine "2" ∷ fine "3" ∷ [];
    malformed_events = 0;
  };
  operator_bridge = record {
    required = false;
    tool_succeeded = false;
    interactive_ask_claimed = false;
    interactive_ask_succeeded = false;
  };
  expected_edit_present = true;
  tests_passed = true;
  disposable = true;
  same_session = true;
  planted_fact_recalled = true;
  interrupt_requested = true;
  stop_settled = true;
  task_busy = false;
  surviving_processes = [];
  usage = record {
    input_tokens = amount;
    output_tokens = amount;
    cost_usd = some amount;
    cost_status = trusted;
  };
  reconciliation = record {
    generation_ids = "g" ∷ [];
    physical_models = "m-1" ∷ [];
    provider_cost_usd = some amount;
    complete = true;
  };
  task_state_isolated = true;
  relay_credential_only = true;
  ambient_credential_leak = false;
}

abbrev digest : String → String
digest s = "00"

abbrev show : ℕ → String
show n = "7"

passes : approval_record (reduce_admission digest show good) ≡ approved "fast" "m-1"
unfolding approval_record reduce_admission
passes = refl

leak_fails :
    approval_record (reduce_admission digest show (record good { ambient_credential_leak = true }))
    ≡ failed_artifact
unfolding approval_record reduce_admission
leak_fails = refl

approval_record-IsProven_example : IsProven good "fast" "m-1"
approval_record-IsProven_example = approval_record-IsProven digest show good "fast" "m-1" passes

abbrev is_token : String → Bool
is_token s = str_eq s "token"

abbrev is_key : String → Bool
is_key s = str_eq s "sk-1"

abbrev evidence : Value
evidence = object (field "token" null (field "note" (text "sk-1") end))
