-- ===== src/Admission/Observed.antt =====
-- lib/agents/admission.ts: what a trial run observed, and the artifact that it gives.
use operator_oss.Base.{ℕ, Bool, Option, List, String}

pub record Number : Type 0 where
  pub is_finite : Bool
  pub is_negative : Bool
  pub text : String

pub data ToolKind : Type 0 where
  read edit command : ToolKind

pub data TrustedSource : Type 0 where
  harness gateway provider incomplete : TrustedSource

pub data CostStatus : Type 0 where
  trusted missing untrusted : CostStatus

pub record Call : Type 0 where
  pub id : String
  pub kind : ToolKind
  pub schema_valid : Bool

pub record ToolResult : Type 0 where
  pub id : String
  pub is_error : Bool

pub record Identity : Type 0 where
  pub requested_alias : String
  pub resolved_model : Option String
  pub fallback_free : Bool
  pub trusted_source : TrustedSource

pub record ToolLoop : Type 0 where
  pub calls : List Call
  pub results : List ToolResult
  pub malformed_events : ℕ

pub record Bridge : Type 0 where
  pub required : Bool
  pub tool_succeeded : Bool
  pub interactive_ask_claimed : Bool
  pub interactive_ask_succeeded : Bool

pub record Usage : Type 0 where
  pub input_tokens : Number
  pub output_tokens : Number
  pub cost_usd : Option Number
  pub cost_status : CostStatus

pub record Reconciliation : Type 0 where
  pub generation_ids : List String
  pub physical_models : List String
  pub provider_cost_usd : Option Number
  pub complete : Bool

pub record Observation : Type 0 where
  pub alias : String
  pub expected_resolved_model : String
  pub session_id : Option String
  pub identity : Identity
  pub streamed : Bool
  pub coherent : Bool
  pub tool_loop : ToolLoop
  pub operator_bridge : Bridge
  pub expected_edit_present : Bool
  pub tests_passed : Bool
  pub disposable : Bool
  pub same_session : Bool
  pub planted_fact_recalled : Bool
  pub interrupt_requested : Bool
  pub stop_settled : Bool
  pub task_busy : Bool
  pub surviving_processes : List String
  pub usage : Usage
  pub reconciliation : Reconciliation
  pub task_state_isolated : Bool
  pub relay_credential_only : Bool
  pub ambient_credential_leak : Bool

pub record Gate : Type 0 where
  pub passed : Bool
  pub detail : String

pub record Gates : Type 0 where
  pub identity : Gate
  pub basic_turn : Gate
  pub tool_loop : Gate
  pub operator_bridge : Gate
  pub repository_result : Gate
  pub resume : Gate
  pub stop : Gate
  pub usage : Gate
  pub isolation : Gate

-- The parts of an artifact that the observation decides; the others are copies of it, and the
-- sanitized diagnostics.
pub record Artifact : Type 0 where
  pub alias : String
  pub resolved_model : Option String
  pub passed : Bool
  pub gates : Gates
  pub session_id_sha256 : Option String
  pub survivor_count : ℕ
