-- ===== src/Services/Tracking.antt =====
-- lib/services.ts: the supervisor knows the process of every managed service that it shows as
-- running.
use operator_oss.Services.{Visibility, row_for}
use operator_oss.Services.Sharing.{
  desired_of, with_visibility, with_token, materialize, save, set_service_visibility,
  rotate_share_token,
}
use operator_oss.Services.Runs.{
  shares, rotates, Op, exits, exposes, fails, prints, probed, removes, run, starts, state_of, step,
  stops,
}
use operator_oss.Services.Processes.{
  IsTracked, change-IsTracked, SameLife-IsTracked, add_log-SameLife, persist-SameLife,
  find_or_add-IsTracked, new_managed-has_process,
}
use operator_oss.Base.{
  ℕ, ◌≡◌, refl, subst, some, inl, inr, Bool, true, false, Option, List, [], ◌∷◌, String, str_eq,
  ◌==◌, if◌then◌else◌, arith, Bool-cases, Option-cases,
}
use operator_oss.Maps.{get}
use operator_oss.Services.{
  Supervisor, Project, wants_running, wants_stopped, key_of, new_managed, change, add_log, exposed,
  exposed_on, output,
}
use operator_oss.Services.Lifecycle.{
  Config, Spawned, raised, without_pid, spawned, configured_command, config_or, find_or_add, begun,
  shown, given_or, up_already, begin_service, start_service, spawn_service, on_error, on_exit,
  on_output, stop_service, remove_entry, remove_entries, remove_project_services, expose_service,
  is_dev,
}
use operator_oss.Services.Rows.{persist, set_pid, set_desired}

module _ (slugify : String → String) (numbered : String → ℕ → String) (trim : String → String)
    (local_url : ℕ → String) (log_cap : ℕ) where
  begin_service-IsTracked :
      (now : ℕ) (project : Project) (name : String) (cfg : Config) (s : Supervisor)
      → IsTracked s
      → IsTracked
          (state_of (begin_service slugify numbered trim local_url log_cap now project name cfg s))
  unfolding begin_service
  begin_service-IsTracked now project name cfg s t =
      let fresh = new_managed project.id name cfg.kind cfg.command project.port true s.rows in
      let found = find_or_add slugify numbered (key_of project.id name) fresh s in
      let t₁ =
        find_or_add-IsTracked slugify numbered (key_of project.id name) fresh s
          (new_managed-has_process project.id name cfg.kind cfg.command project.port true s.rows)
          t in
      let f = begun local_url now project cfg in
      let s₂ = change found.1 f found.0 in
      let desired = if is_dev cfg.kind then wants_running else wants_stopped in
      let t₂ : IsTracked s₂ = change-IsTracked found.1 f found.0 refl t₁ in
      let saved = persist slugify numbered found.1 project desired s₂ in
      let t₃ : IsTracked saved.0 =
        SameLife-IsTracked s₂ saved.0 (persist-SameLife slugify numbered found.1 project desired s₂)
          t₂ in
      elim (Bool-cases saved.1) [
        | inl e ↦ rw (e, begin_service) t₃
        | inr e ↦ rw (e, begin_service) t₃
      ]

  start_service-IsTracked :
      (now : ℕ) (project : Project) (name : String) (s : Supervisor)
      → IsTracked s
      → IsTracked
          (state_of (start_service slugify numbered trim local_url log_cap now project name s))
  unfolding start_service
  start_service-IsTracked now project name s t =
      elim (Option-cases (configured_command trim project name)) [
        | inl n ↦ rw (n, start_service) t
        | inr (cfg, n) ↦ elim (Bool-cases (str_eq project.repo_path "")) [
          | inl e ↦ rw (n, e, start_service) t
          | inr e ↦
              elim (Option-cases
                (up_already slugify numbered (get (key_of project.id name) s.services) s)) [
                  | inr (i, u) ↦ rw (n, e, u, start_service) t
                  | inl u ↦
                      rw (n, e, u, start_service) (begin_service-IsTracked now project name cfg s t)
                ]
        ]
      ]

  spawn_service-IsTracked :
      (i : ℕ) (project : Project) (cfg : Config) (port_free : Bool) (result : Spawned)
      (s : Supervisor)
      → IsTracked s
      → IsTracked
          (spawn_service slugify numbered trim local_url log_cap i project cfg port_free result s)
  unfolding spawn_service on_error set_pid add_log
  spawn_service-IsTracked i project cfg port_free (raised message) s t j = ground (arith, t j)
  spawn_service-IsTracked i project cfg port_free (without_pid message) s t j = ground (arith, t j)
  spawn_service-IsTracked i project cfg port_free (spawned pid) s t j = ground (arith, t j)

  on_error-IsTracked :
      (i : ℕ) (message : String) (s : Supervisor)
      → IsTracked s
      → IsTracked (on_error slugify numbered trim local_url log_cap i message s)
  unfolding on_error add_log
  on_error-IsTracked i message s t j = ground (arith, t j)

  on_exit-IsTracked :
      (i : ℕ) (code : Option ℕ) (signal : Option String) (s : Supervisor)
      → IsTracked s
      → IsTracked (on_exit slugify numbered trim local_url log_cap i code signal s)
  unfolding on_exit set_pid add_log
  on_exit-IsTracked i code signal s t j = ground (arith, t j)

  stop_service-IsTracked :
      (project_id name : String) (s : Supervisor)
      → IsTracked s
      → IsTracked (stop_service slugify numbered trim local_url log_cap project_id name s).0
  unfolding stop_service set_desired
  stop_service-IsTracked project_id name s t j = ground (arith, t j)

  expose_service-IsTracked :
      (now : ℕ) (project : Project) (name : String) (port : ℕ) (url : Option String)
      (s : Supervisor)
      → IsTracked s
      → IsTracked (
          state_of
            (expose_service slugify numbered trim local_url log_cap now project name port url s))
  unfolding expose_service
  expose_service-IsTracked now project name port url s t =
      let cfg = configured_command trim project name in
      let kind = config_or cfg (λ c. c.kind) exposed in
      let command = config_or cfg (λ c. c.command) "" in
      let fresh = new_managed project.id name kind command port false s.rows in
      let found = find_or_add slugify numbered (key_of project.id name) fresh s in
      let t₁ =
        find_or_add-IsTracked slugify numbered (key_of project.id name) fresh s
          (new_managed-has_process project.id name kind command port false s.rows) t in
      let f =
        shown now port (given_or slugify numbered trim local_url log_cap (local_url port) url) in
      let s₂ = change found.1 f found.0 in
      let t₂ : IsTracked s₂ = change-IsTracked found.1 f found.0 (ground (arith, t₁ found.1)) t₁ in
      let saved = persist slugify numbered found.1 project wants_stopped s₂ in
      let t₃ : IsTracked saved.0 =
        SameLife-IsTracked s₂ saved.0
          (persist-SameLife slugify numbered found.1 project wants_stopped s₂) t₂ in
      elim (Bool-cases saved.1) [
        | inl e ↦
            rw (e, expose_service)
              (SameLife-IsTracked saved.0 (add_log log_cap found.1 (exposed_on port) saved.0)
                (add_log-SameLife log_cap found.1 (exposed_on port) saved.0) t₃)
        | inr e ↦ rw (e, expose_service) t₃
      ]

  remove_entry-IsTracked :
      (project_id key : String) (i : ℕ) (s : Supervisor)
      → IsTracked s
      → IsTracked (remove_entry slugify numbered trim local_url log_cap project_id key i s)
  unfolding remove_entry
  remove_entry-IsTracked project_id key i s t j = ground (arith, t j)

  remove_entries-IsTracked :
      (project_id : String) (entries : List (String × ℕ)) (s : Supervisor)
      → IsTracked s
      → IsTracked (remove_entries slugify numbered trim local_url log_cap project_id entries s)
  unfolding remove_entries
  remove_entries-IsTracked project_id [] s t = t
  remove_entries-IsTracked project_id ((key, i) ∷ entries) s t =
      remove_entries-IsTracked project_id entries
        (remove_entry slugify numbered trim local_url log_cap project_id key i s)
        (remove_entry-IsTracked project_id key i s t)

  save-IsTracked :
      (i : ℕ) (project : Project) (name : String) (s : Supervisor)
      → IsTracked s
      → IsTracked (state_of (save slugify numbered trim i project name s))
  unfolding save
  save-IsTracked i project name s t =
      let desired = desired_of (row_for project.id name s.rows) in
      let saved = persist slugify numbered i project desired s in
      let t' : IsTracked saved.0 =
        SameLife-IsTracked s saved.0 (persist-SameLife slugify numbered i project desired s) t in
      elim (Bool-cases saved.1) [ inl e ↦ rw (e, save) t' | inr e ↦ rw (e, save) t' ]

  materialize-IsTracked :
      (project : Project) (name : String) (s s' : Supervisor) (i : ℕ)
      → IsTracked s
      → materialize slugify numbered trim project name s ≡ some (s', i)
      → IsTracked s'
  unfolding materialize
  materialize-IsTracked project name s s' i t h =
      let cfg = configured_command trim project name in
      let key = key_of project.id name in
      elim (Option-cases (get key s.services)) [
        | inr (j, n) ↦ let same : s ≡ s' = ground (arith, n, h) in subst IsTracked same t
        | inl n ↦ elim (Option-cases (row_for project.id name s.rows)) [
          | inr (r, f) ↦
              let m =
                new_managed project.id name (config_or cfg (λ c. c.kind) r.kind)
                  (config_or cfg (λ c. c.command) r.command)
                  (if r.port == 0 then project.port else r.port)
                  (config_or cfg (λ c. true) r.managed) s.rows in
              let same : (find_or_add slugify numbered key m s).0 ≡ s' = ground (arith, n, f, h) in
              subst IsTracked same (
                find_or_add-IsTracked slugify numbered key m s
                  (new_managed-has_process project.id name _ _ _ _ s.rows) t)
          | inl f ↦ elim (Option-cases cfg) [
            | inl c ↦ absurd (ground (arith, n, f, c, h))
            | inr (c, e) ↦
                let m = new_managed project.id name c.kind c.command project.port true s.rows in
                let same : (find_or_add slugify numbered key m s).0 ≡ s' =
                  ground (arith, n, f, e, h) in
                subst IsTracked same (
                  find_or_add-IsTracked slugify numbered key m s
                    (new_managed-has_process project.id name c.kind c.command project.port true
                      s.rows)
                    t)
          ]
        ]
      ]

  set_service_visibility-IsTracked :
      (project : Project) (name : String) (visibility : Visibility) (new_token : String)
      (s : Supervisor)
      → IsTracked s
      → IsTracked (
          state_of
            (set_service_visibility slugify numbered trim project name visibility new_token s))
  unfolding set_service_visibility
  set_service_visibility-IsTracked project name visibility new_token s t =
      elim (Option-cases (materialize slugify numbered trim project name s)) [
        | inl n ↦ rw (n, set_service_visibility) t
        | inr ((s', i), n) ↦
            rw (n, set_service_visibility)
              (let t' = materialize-IsTracked project name s s' i t n in
                save-IsTracked i project name (change i (with_visibility visibility new_token) s')
                  (change-IsTracked i (with_visibility visibility new_token) s' (t' i) t'))
      ]

  rotate_share_token-IsTracked :
      (project : Project) (name new_token : String) (s : Supervisor)
      → IsTracked s
      → IsTracked (state_of (rotate_share_token slugify numbered trim project name new_token s))
  unfolding rotate_share_token
  rotate_share_token-IsTracked project name new_token s t =
      elim (Option-cases (get (key_of project.id name) s.services)) [
        | inl n ↦ rw (n, rotate_share_token) t
        | inr (i, n) ↦
            rw (n, rotate_share_token)
              (save-IsTracked i project name (change i (with_token new_token) s)
                (change-IsTracked i (with_token new_token) s (t i) t))
      ]

  step-IsTracked :
      (o : Op) (s : Supervisor)
      → IsTracked s
      → IsTracked (step slugify numbered trim local_url log_cap o s)
  unfolding step remove_project_services on_output
  step-IsTracked (starts now project name) s t = start_service-IsTracked now project name s t
  step-IsTracked (probed i project cfg port_free result) s t =
      spawn_service-IsTracked i project cfg port_free result s t
  step-IsTracked (fails i message) s t = on_error-IsTracked i message s t
  step-IsTracked (exits i code signal) s t = on_exit-IsTracked i code signal s t
  step-IsTracked (prints i text) s t =
      SameLife-IsTracked s (add_log log_cap i (output text) s)
        (add_log-SameLife log_cap i (output text) s) t
  step-IsTracked (stops project_id name) s t = stop_service-IsTracked project_id name s t
  step-IsTracked (removes project_id) s t = remove_entries-IsTracked project_id s.services s t
  step-IsTracked (exposes now project name port url) s t =
      expose_service-IsTracked now project name port url s t
  step-IsTracked (shares project name visibility new_token) s t =
      set_service_visibility-IsTracked project name visibility new_token s t
  step-IsTracked (rotates project name new_token) s t =
      rotate_share_token-IsTracked project name new_token s t

  -- Whatever starts, probes, stops, exposures, removals, changes of sharing
  -- and process events come, in any order, every
  -- service of ours that shows as running has a process that the supervisor knows.
  pub run-IsTracked :
      (os : List Op) (s : Supervisor)
      → IsTracked s
      → IsTracked (run slugify numbered trim local_url log_cap os s)
  unfolding run
  run-IsTracked [] s t = t
  run-IsTracked (o ∷ os) s t =
      run-IsTracked os (step slugify numbered trim local_url log_cap o s) (step-IsTracked o s t)
