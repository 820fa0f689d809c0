-- ===== src/Services/Stopping.antt =====
-- lib/services.ts: what a stop does to a running service, and to one whose port is being probed.
use operator_oss.Base.{ℕ, ◌≡◌, inl, inr, true, none, some, List, ◌∷◌, String, arith, Option-cases}
use operator_oss.Maps.{get}
use operator_oss.Services.{running, starting, Supervisor, Project, key_of, add_log}
use operator_oss.Services.Lifecycle.{Config, spawned, stop_service, spawn_service}
use operator_oss.Services.Rows.{set_desired, set_pid}
use operator_oss.Services.Tracking.{run-IsTracked}
use operator_oss.Services.Processes.{IsTracked}
use operator_oss.Services.Runs.{Op, run}

module _ (slugify : String → String) (numbered : String → ℕ → String) (trim : String → String)
    (local_url : ℕ → String) (log_cap : ℕ) where
  -- Whatever happened before, a stop of a service of ours that shows as running reaches it: the
  -- service has a process, and the process group is told to end.
  pub stop_reaches_running :
      (os : List Op) (s₀ : Supervisor) (project_id name : String) (i : ℕ)
      → IsTracked s₀
      → get (key_of project_id name) (run slugify numbered trim local_url log_cap os s₀).services
        ≡ some i
      → ((run slugify numbered trim local_url log_cap os s₀).objects i).managed ≡ true
      → ((run slugify numbered trim local_url log_cap os s₀).objects i).status ≡ running
      → let s = run slugify numbered trim local_url log_cap os s₀ in
        (pid : ℕ) × ((s.objects i).proc ≡ some pid)
        × ((stop_service slugify numbered trim local_url log_cap project_id name s).0.signalled
            ≡ pid ∷ s.signalled)
  unfolding stop_service set_desired
  stop_reaches_running os s₀ project_id name i t found ours shows =
      let s = run slugify numbered trim local_url log_cap os s₀ in
      let h = run-IsTracked slugify numbered trim local_url log_cap os s₀ t i in
      elim (Option-cases (s.objects i).proc) [
        | inl n ↦ absurd (ground arith)
        | inr (pid, n) ↦ (pid, n, ground arith)
      ]

  -- A stop that comes while the port of a starting service is probed is lost: it tells no process to
  -- end, and when the port turns out free, the start goes on and the service runs.
  pub stop_lost_in_probe :
      (i : ℕ) (project : Project) (cfg : Config) (pid : ℕ) (name : String) (s : Supervisor)
      → get (key_of project.id name) s.services ≡ some i
      → (s.objects i).status ≡ starting
      → (s.objects i).proc ≡ none
      → let s' = (stop_service slugify numbered trim local_url log_cap project.id name s).0 in
        let s'' =
          spawn_service slugify numbered trim local_url log_cap i project cfg true
            (spawned pid)
            s' in
        (s'.signalled ≡ s.signalled)
        × ((s''.objects i).status ≡ running)
        × ((s''.objects i).proc ≡ some pid)
  unfolding stop_service set_desired spawn_service set_pid add_log
  stop_lost_in_probe i project cfg pid name s found begins bare =
      (ground arith, ground arith, ground arith)
