-- ===== src/Routes/Edit.antt =====
-- app/api/tasks/[id]/route.ts: PATCH, over the row, the slots and the dependencies of a task. The
-- priority, the note to the other tabs and the queued completion of a card are left out. The checks
-- run without an await, so that a request is one step.
use operator_oss.Base.{
  ℕ, Bool, true, false, not, ◌&&◌, ◌||◌, Option, none, some, List, String, str_eq, if◌then◌else◌,
  is_some,
}
use operator_oss.Sets.{member}
use operator_oss.Turns.{has_turn, abort_turn}
use operator_oss.World.{World, Task, WorkspaceMode, Status, get_task, update_task}
use operator_oss.Runner.{truthy}
use operator_oss.Deps.{Edge, set_task_deps, ok, err}
use operator_oss.LaunchConfig.{
  Capabilities, LaunchConfiguration, validate_launch_configuration, get_capabilities,
  resolved_run_default, default_permission_mode,
}

-- The body: `none` for a key that is not in it. Inside, `none` is null, or for the mode of the workspace,
-- the permission mode and the agent a value of another type or no word of the table. A title, a
-- description, a status or a suggested flag of null is not checked by the handler, and its column takes
-- none. Values of other types for these four, and a status that is no word of the type, are left out.
pub record Edit : Type 0 where
  pub title : Option (Option String)
  pub description : Option (Option String)
  pub status : Option (Option Status)
  pub suggested : Option (Option Bool)
  pub model : Option (Option String)
  pub reasoning : Option (Option String)
  pub permission_mode : Option (Option String)
  pub workspace_mode : Option (Option WorkspaceMode)
  pub agent : Option (Option String)
  pub confirm : Bool
  pub depends_on : Option (List String)

-- `allowed`, the columns that the request sets.
pub record Allowed : Type 0 where
  pub title : Option (Option String)
  pub description : Option (Option String)
  pub status : Option (Option Status)
  pub awaiting_input : Option Bool
  pub suggested : Option (Option Bool)
  pub agent : Option String
  pub model : Option (Option String)
  pub resolved_model : Option (Option String)
  pub reasoning : Option (Option String)
  pub permission_mode : Option (Option String)
  pub workspace_mode : Option WorkspaceMode
  pub launch_config_confirmed_at : Option ℕ

-- A refusal by its HTTP status, or the columns so far.
pub data Step : Type 0 where
  denied : ℕ → Step
  allowed : Allowed → Step

-- The answer, with the rows and the dependencies that the request leaves. `crashed` is the server's
-- answer of 500 to an exception that the handler does not catch.
pub data Patched : Type 0 where
  refused : ℕ → World → List Edge → Patched
  crashed : World → List Edge → Patched
  saved : World → List Edge → Patched

abbrev pub and_then : Step → (Allowed → Step) → Step
and_then (denied code) f = denied code
and_then (allowed a) f = f a

abbrev pub value_or {ℓ} : {A : Type ℓ} → Option A → A → A
value_or none old = old
value_or (some new) old = new

abbrev pub stored {ℓ} : {A : Type ℓ} → Option (Option A) → Option A
stored none = none
stored (some v) = v

abbrev pub is_null {ℓ} : {A : Type ℓ} → Option (Option A) → Bool
is_null none = false
is_null (some none) = true
is_null (some (some v)) = false

-- One of the columns that are NOT NULL is to be set to null.
abbrev pub has_null :
    Option (Option String)
    → Option (Option String)
    → Option (Option Status)
    → Option (Option Bool)
    → Bool
has_null title description status suggested =
    is_null title || (is_null description || (is_null status || is_null suggested))

-- `{ ...cur, ...patch }`, of a patch without such a null.
unfoldable pub with_columns : Allowed → Task → Task
with_columns a t = record t {
  title = value_or (stored a.title) t.title;
  description = value_or (stored a.description) t.description;
  status = value_or (stored a.status) t.status;
  awaiting_input = value_or a.awaiting_input t.awaiting_input;
  suggested = value_or (stored a.suggested) t.suggested;
  agent = value_or a.agent t.agent;
  model = value_or a.model t.model;
  resolved_model = value_or a.resolved_model t.resolved_model;
  reasoning = value_or a.reasoning t.reasoning;
  permission_mode = value_or a.permission_mode t.permission_mode;
  workspace_mode = value_or a.workspace_mode t.workspace_mode;
  launch_config_confirmed_at = value_or a.launch_config_confirmed_at t.launch_config_confirmed_at;
}

abbrev pub has_session : Task → Bool
has_session t = t.started || truthy t.session_id

abbrev pub has_workspace : Task → Bool
has_workspace t = has_session t || not (str_eq t.worktree_path "")

abbrev pub check_mode : Option (Option WorkspaceMode) → Task → Allowed → Step
check_mode none t a = allowed a
check_mode (some none) t a = denied 400
check_mode (some (some m)) t a =
    if has_workspace t then denied 409 else allowed (record a { workspace_mode = some m })

abbrev pub touches_launch_config : Edit → Bool
touches_launch_config b = is_some b.agent || (is_some b.model || (is_some b.reasoning || b.confirm))

abbrev pub check_starting : Edit → Bool → Task → Allowed → Step
check_starting b live t a =
    if not t.started && (touches_launch_config b && live) then denied 409 else allowed a

-- A status of the user's own hand clears the flag for attention.
abbrev pub cleared_flag : Option (Option Status) → Option Bool
cleared_flag none = none
cleared_flag (some s) = some false

abbrev pub whitelisted : Edit → Allowed
whitelisted b = record {
  title = b.title;
  description = b.description;
  status = b.status;
  awaiting_input = cleared_flag b.status;
  suggested = b.suggested;
  agent = none;
  model = b.model;
  resolved_model = none;
  reasoning = b.reasoning;
  permission_mode = b.permission_mode;
  workspace_mode = none;
  launch_config_confirmed_at = none;
}

abbrev pub same_text : Option String → Option String → Bool
same_text none none = true
same_text (some s) (some r) = str_eq s r
same_text none (some r) = false
same_text (some s) none = false

abbrev pub changes : Option (Option String) → Option String → Bool
changes none old = false
changes (some new) old = not (same_text new old)

abbrev pub changes_agent : Option String → String → Bool
changes_agent none old = false
changes_agent (some new) old = not (str_eq new old)

-- `configuration`
abbrev pub configured : Allowed → Task → LaunchConfiguration
configured a t = record {
  agent = value_or a.agent t.agent;
  model = value_or a.model t.model;
  reasoning = value_or a.reasoning t.reasoning;
}

abbrev pub is_cancelled : Option (Option Status) → Bool
is_cancelled (some (some Status.cancelled)) = true
is_cancelled _ = false

module _ (catalog : String → Option Capabilities) (default_one : Capabilities)
    (get_setting : String → Option String) where
  -- The permission mode that another agent starts with.
  abbrev pub initial_permission : String → Option String
  initial_permission agent = some (
      value_or
        (resolved_run_default (get_capabilities catalog default_one) get_setting
          default_permission_mode agent)
        "bypassPermissions")

  abbrev pub or_reset {ℓ} : {A : Type ℓ} → Option A → A → Option A
  or_reset none start = some start
  or_reset (some v) start = some v

  -- Another agent, while there is no session of the old one.
  abbrev pub switch_to : String → Task → Allowed → Step
  switch_to next t a =
      if not (is_some (catalog next))
      then denied 400
      else if str_eq next t.agent
      then allowed a
      else if has_session t
      then denied 409
      else allowed (record a {
        agent = some next;
        model = or_reset a.model none;
        reasoning = or_reset a.reasoning none;
        permission_mode = or_reset a.permission_mode (initial_permission next);
        resolved_model = some none;
      })

  abbrev pub switch_agent : Option (Option String) → Task → Allowed → Step
  switch_agent none t a = allowed a
  switch_agent (some none) t a = denied 400
  switch_agent (some (some next)) t a = switch_to next t a

  abbrev pub is_offered : String → Option String → Bool
  is_offered agent none = false
  is_offered agent (some mode) =
      member mode (get_capabilities catalog default_one agent).permission_modes

  abbrev pub permission_fine : Option (Option String) → String → Bool
  permission_fine none agent = true
  permission_fine (some mode) agent = is_offered agent mode

  abbrev pub check_permission : Task → Allowed → Step
  check_permission t a =
      if permission_fine a.permission_mode (value_or a.agent t.agent) then allowed a else denied 400

  abbrev pub is_invalid : Allowed → Task → Bool
  is_invalid a t = is_some (validate_launch_configuration catalog (configured a t))

  abbrev pub check_config : Edit → Task → Allowed → Step
  check_config b t a =
      if not t.started && ((is_some b.model || is_some b.reasoning) && is_invalid a t)
      then denied 400
      else allowed a

  -- Another setup of a suggestion has to be confirmed again.
  abbrev pub launch_config_changed : Allowed → Task → Bool
  launch_config_changed a t =
      changes_agent a.agent t.agent || (changes a.model t.model || changes a.reasoning t.reasoning)

  abbrev pub reset_confirmation : Task → Allowed → Allowed
  reset_confirmation t a =
      if launch_config_changed a t && (not t.started && t.launch_config_required)
      then record a { launch_config_confirmed_at = some 0 }
      else a

  abbrev pub confirm_setup : Edit → ℕ → Task → Allowed → Step
  confirm_setup b now t a =
      if not b.confirm
      then allowed a
      else if t.started
      then denied 409
      else if is_invalid a t
      then denied 400
      else allowed (record a { launch_config_confirmed_at = some now })

  -- The checks in their order, of a task whose slot is taken where `live` says so.
  unfoldable pub edit_of : Edit → Bool → ℕ → Task → Step
  edit_of b live now t = and_then (check_mode b.workspace_mode t (whitelisted b)) (λ a₁.
      and_then (check_starting b live t a₁) (λ a₂. and_then (switch_agent b.agent t a₂) (λ a₃.
        and_then (check_permission t a₃) (λ a₄.
          and_then (check_config b t a₄) (λ a₅. confirm_setup b now t (reset_confirmation t a₅))))))

  -- `none` where setTaskDeps throws.
  abbrev pub new_deps : Option (List String) → String → World → List Edge → Option (List Edge)
  new_deps none id w edges = some edges
  new_deps (some ids) id w edges = elim (set_task_deps id ids w edges) [
    | ok edges' ↦ some edges'
    | err e ↦ none
  ]

  -- A cancelled task's turn is stopped, before the dependencies are set and the row is written. The
  -- dependencies are committed by then, also where the write of the row throws.
  unfoldable pub apply_edit : String → Option (List String) → Allowed → World → List Edge → Patched
  unfolding with_columns
  apply_edit id depends_on a w edges =
      let w₁ =
        if is_cancelled a.status then record w { turns = (abort_turn id w.turns).0 } else w in
      elim (new_deps depends_on id w₁ edges) [
        | none ↦ refused 400 w₁ edges
        | some edges' ↦ elim (get_task id w₁) [
          | none ↦ refused 404 w₁ edges'
          | some t ↦
              if has_null a.title a.description a.status a.suggested
              then crashed w₁ edges'
              else saved (update_task id (with_columns a) w₁) edges'
        ]
      ]

  unfoldable pub patch_task : String → Edit → World → List Edge → Patched
  unfolding edit_of apply_edit
  patch_task id b w edges = elim (get_task id w) [
    | none ↦ refused 404 w edges
    | some t ↦ elim (edit_of b (has_turn id w.turns) w.clock t) [
      | denied code ↦ refused code w edges
      | allowed a ↦ apply_edit id b.depends_on a w edges
    ]
  ]
