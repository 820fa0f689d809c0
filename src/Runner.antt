-- ===== src/Runner.antt =====
-- lib/runner.ts: the turn runner. The three classifiers of a provider's error text (regular
-- expressions of lib/promptLimits.ts, lib/authFailure.ts and lib/usageLimit.ts) are parameters.
pub mod Events
pub mod Settle
pub mod Launch
pub mod Asking
pub mod Landing
pub mod Frames
pub mod HandingOver
pub mod Settling
pub mod Outcome
pub mod Launching
pub mod Clearing
pub mod Crash
pub mod Crashing
pub mod FollowUps
use operator_oss.Base.{
  ℕ, Bool, true, false, Option, none, some, List, [], ◌∷◌, String, str_eq, if◌then◌else◌, not,
}
use operator_oss.Sets.{member, add, remove}
use operator_oss.World.{
  World, ToolData, Hint, context_overflow, auth_expired, usage_limit, Body, failure, system,
  error_event, agent_auth_event, publish, add_message,
}

pub record Classifiers : Type 0 where
  pub is_prompt_too_long : String → Bool
  pub is_auth_failure : String → Bool
  pub is_usage_limit : String → Bool

-- The constants and variables of one call of `run`.
pub record Turn : Type 0 where
  pub task_id : String
  pub gen : ℕ
  pub agent : String
  pub was_started : Bool  -- task.started at launch
  pub started_at : ℕ
  pub controller : ℕ
  pub session_id : Option String
  pub opened : Bool
  pub registers : Bool  -- whether queueWorkstreamConversationRegistration takes the conversation
  pub registered : Bool  -- conversationRegistrationQueued
  pub tool_msgs : List (String × (ℕ × ToolData))
  pub open_asks : List String
  pub turn_usage : Option String
  pub turn_error : Option String
  pub auth_failure : Option String
  pub usage_limit_failure : Option String

-- A string or null as a condition.
abbrev pub truthy : Option String → Bool
truthy none = false
truthy (some s) = not (str_eq s "")

module _ (k : Classifiers) where
  unfoldable pub hint_for : String → Option Hint
  hint_for text =
      if k.is_prompt_too_long text
      then some context_overflow
      else if k.is_auth_failure text
      then some auth_expired
      else if k.is_usage_limit text
      then some usage_limit
      else none

  -- The line is published also where it cannot be persisted.
  unfoldable pub publish_turn_error : String → ℕ → String → World → World
  unfolding hint_for
  publish_turn_error id gen text w =
      let body = failure text (hint_for text) in
      elim (add_message id gen system body w) [
        | none ↦ publish id (error_event body none) w
        | some (w', n) ↦ publish id (error_event body (some n)) w'
      ]

-- lib/agents/connections.ts: the flag of a dead login, and whether the call raised it.
unfoldable pub mark_agent_auth_broken : String → World → World × Bool
mark_agent_auth_broken agent w =
    if member agent w.broken then (w, false) else (record w { broken = add agent w.broken }, true)

unfoldable pub clear_agent_auth_broken : String → World → World × Bool
clear_agent_auth_broken agent w =
    if member agent w.broken
    then (record w { broken = remove agent w.broken }, true)
    else (w, false)

module _ (k : Classifiers) where
  -- `failTurn`: true where the failure was one of authentication.
  unfoldable pub fail_turn : Turn → String → World → World × Bool
  unfolding publish_turn_error mark_agent_auth_broken
  fail_turn t text w =
      let w' = publish_turn_error k t.task_id t.gen text w in
      if k.is_auth_failure text
      then (
        let (w'', raised) = mark_agent_auth_broken t.agent w' in
            if raised then publish t.task_id (agent_auth_event t.agent true) w'' else w'',
        true,
      )
      else (w', false)

  -- What the `error` event and the `catch` block do with a failure.
  unfoldable pub take_failure : Turn → String → World → Turn × World
  unfolding fail_turn
  take_failure t text w =
      let (w', auth) = fail_turn t text w in
      (
        if auth
            then record t { turn_error = some text; auth_failure = some text }
            else if k.is_usage_limit text
            then record t { turn_error = some text; usage_limit_failure = some text }
            else record t { turn_error = some text },
        w',
      )
