-- ===== src/Services/Runs.antt =====
-- lib/services.ts: runs of the supervisor, as lists of what happens to it.
use operator_oss.Base.{ℕ, Bool, Option, List, [], ◌∷◌, String}
use operator_oss.Services.{Supervisor, Project}
use operator_oss.Services.Lifecycle.{
  Config, Spawned, Outcome, failed, done, probing, start_service, spawn_service, on_error, on_exit,
  on_output, stop_service, remove_project_services, expose_service,
}
use operator_oss.Services.{Visibility}
use operator_oss.Services.Sharing.{set_service_visibility, rotate_share_token}

-- What may happen to the supervisor, each with what the outside gives.
pub data Op : Type 0 where
  starts : ℕ → Project → String → Op
  probed : ℕ → Project → Config → Bool → Spawned → Op
  fails : ℕ → String → Op
  exits : ℕ → Option ℕ → Option String → Op
  prints : ℕ → String → Op
  stops : String → String → Op
  removes : String → Op
  exposes : ℕ → Project → String → ℕ → Option String → Op
  shares : Project → String → Visibility → String → Op
  rotates : Project → String → String → Op

abbrev pub state_of : Outcome → Supervisor
state_of (failed s) = s
state_of (done s i) = s
state_of (probing s i cfg) = s

module _ (slugify : String → String) (numbered : String → ℕ → String) (trim : String → String)
    (local_url : ℕ → String) (log_cap : ℕ) where
  unfoldable pub step : Op → Supervisor → Supervisor
  step (starts now project name) s =
      state_of (start_service slugify numbered trim local_url log_cap now project name s)
  step (probed i project cfg port_free result) s =
      spawn_service slugify numbered trim local_url log_cap i project cfg port_free result s
  step (fails i message) s = on_error slugify numbered trim local_url log_cap i message s
  step (exits i code signal) s = on_exit slugify numbered trim local_url log_cap i code signal s
  step (prints i text) s = on_output slugify numbered trim local_url log_cap i text s
  step (stops project_id name) s =
      (stop_service slugify numbered trim local_url log_cap project_id name s).0
  step (removes project_id) s =
      remove_project_services slugify numbered trim local_url log_cap project_id s
  step (exposes now project name port url) s =
      state_of (expose_service slugify numbered trim local_url log_cap now project name port url s)
  step (shares project name visibility new_token) s =
      state_of (set_service_visibility slugify numbered trim project name visibility new_token s)
  step (rotates project name new_token) s =
      state_of (rotate_share_token slugify numbered trim project name new_token s)

  unfoldable pub run : List Op → Supervisor → Supervisor
  unfolding step
  run [] s = s
  run (o ∷ os) s = run os (step o s)
