-- ===== src/LaunchConfig.antt =====
-- lib/agents/launchConfig.ts: which harness, model and thinking strength a task may be launched with.
-- The capabilities of a harness and the settings are arguments.
use Prim.Native.String.{◌++◌ as append}
use operator_oss.Base.{
  Bool, true, not, ◌&&◌, Option, none, some, List, [], ◌∷◌, String, str_eq, if◌then◌else◌, is_some,
}
use operator_oss.Sets.{member}
use operator_oss.World.{Task}

pub record ModelOption : Type 0 where
  pub value : String
  pub reasoning_values : Option (List String)

pub record Capabilities : Type 0 where
  pub models : List ModelOption
  pub reasoning_options : List String
  pub permission_modes : List String

pub record LaunchConfiguration : Type 0 where
  pub agent : String
  pub model : Option String
  pub reasoning : Option String

pub data ConfigError : Type 0 where
  unknown_harness unsupported_model unsupported_reasoning : ConfigError

pub data RunDefault : Type 0 where
  default_model default_reasoning default_permission_mode : RunDefault

unfoldable pub find_model : String → List ModelOption → Option ModelOption
find_model v [] = none
find_model v (m ∷ ms) = if str_eq m.value v then some m else find_model v ms

abbrev given : Option String → String
given none = ""
given (some s) = s

-- `!supportedReasoning || supportedReasoning.includes(option.value)`
abbrev supports : Option (List String) → String → Bool
supports none v = true
supports (some vs) v = member v vs

-- `none` where the harness is not known.
unfoldable pub validate_launch_configuration :
    (String → Option Capabilities) → LaunchConfiguration → Option ConfigError
unfolding find_model
validate_launch_configuration get_capabilities config = elim (get_capabilities config.agent) [
  | none ↦ some unknown_harness
  | some c ↦ elim (find_model (given config.model) c.models) [
    | none ↦ some unsupported_model
    | some m ↦
        if str_eq (given config.model) ""
        then some unsupported_model
        else if not (str_eq (given config.reasoning) "")
            && (member (given config.reasoning) c.reasoning_options
                && supports m.reasoning_values (given config.reasoning))
        then none
        else some unsupported_reasoning
  ]
]

abbrev key_text : RunDefault → String
key_text default_model = "default_model"
key_text default_reasoning = "default_reasoning"
key_text default_permission_mode = "default_permission_mode"

abbrev or_setting : Option String → Option String → Option String
or_setting none other = other
or_setting (some v) other = some v

unfoldable pub app_run_default : (String → Option String) → RunDefault → String → Option String
app_run_default get_setting key agent =
    or_setting (get_setting (append (key_text key) (append ":" agent))) (get_setting (key_text key))

unfoldable pub usable_run_default : List String → Option String → Option String
usable_run_default options none = none
usable_run_default options (some v) = if not (str_eq v "") && member v options then some v else none

abbrev values : List ModelOption → List String
values [] = []
values (m ∷ ms) = m.value ∷ values ms

unfoldable pub resolved_run_default :
    (String → Capabilities) → (String → Option String) → RunDefault → String → Option String
unfolding app_run_default usable_run_default
resolved_run_default capabilities get_setting default_model agent =
    usable_run_default (values (capabilities agent).models)
      (app_run_default get_setting default_model agent)
resolved_run_default capabilities get_setting default_reasoning agent =
    usable_run_default (capabilities agent).reasoning_options
      (app_run_default get_setting default_reasoning agent)
resolved_run_default capabilities get_setting default_permission_mode agent =
    usable_run_default (capabilities agent).permission_modes
      (app_run_default get_setting default_permission_mode agent)

abbrev pub config_of : Task → LaunchConfiguration
config_of t = record { agent = t.agent; model = t.model; reasoning = t.reasoning }

abbrev pub is_valid : (String → Option Capabilities) → LaunchConfiguration → Bool
is_valid get_capabilities config =
    not (is_some (validate_launch_configuration get_capabilities config))

-- A harness that is not known falls back to the default one's capabilities.
unfoldable pub get_capabilities :
    (String → Option Capabilities) → Capabilities → String → Capabilities
get_capabilities catalog default_one agent = elim (catalog agent) [
  | none ↦ default_one
  | some c ↦ c
]
