-- ===== src/Services/Lifecycle.antt =====
-- lib/services.ts: starting, ending and stopping a service. startService is two steps, up to the
-- probe of the port and from its answer on, between which anything else may run; the handlers of a
-- process are steps of their own. `slugify` and `numbered` make labels, `trim` is the string's, and
-- `local_url` is serviceUrl. What spawn gives is an argument. Lines of output come one by one.
use operator_oss.Services.Rows.{persist, set_desired, set_pid}
use operator_oss.Base.{
  ℕ, ◌+◌, Bool, true, false, not, ◌&&◌, ◌||◌, Option, none, some, List, [], ◌∷◌, String, str_eq,
  ◌==◌, if◌then◌else◌, is_some,
}
use operator_oss.Maps.{get, set, delete}
use operator_oss.Services.{
  Kind, dev, setup, test, exposed, Status, stopped, starting, running, exited, errored,
  wants_running, wants_stopped, Line, port_taken, failed_to_start, started, process_error,
  stopped_by_signal, exited_with, exposed_on, output, Managed, removed_event, Supervisor, Project,
  key_of, new_managed, change, emit, push_status, add_log,
}

pub record Config : Type 0 where
  pub kind : Kind
  pub command : String

abbrev pub config_or : {A : Type 0} → Option Config → (Config → A) → A → A
config_or none f a = a
config_or (some cfg) f a = f cfg

abbrev pub is_up : Status → Bool
is_up running = true
is_up starting = true
is_up _ = false

abbrev pub is_dev : Kind → Bool
is_dev dev = true
is_dev _ = false

unfoldable pub configured_command : (String → String) → Project → String → Option Config
configured_command trim project name =
    if str_eq name "dev"
    then hit dev project.dev_command
    else if str_eq name "setup"
    then hit setup project.setup_command
    else if str_eq name "test"
    then hit test project.test_command
    else none
  where
    hit : Kind → String → Option Config
    hit kind command =
        if str_eq (trim command) "" then none else some (record { kind = kind; command = command })

-- The entry from here to the probe's answer.
abbrev pub begun : (ℕ → String) → ℕ → Project → Config → Managed → Managed
begun local_url now project cfg m = record m {
  kind = cfg.kind;
  command = cfg.command;
  port = project.port;
  managed = true;
  exit_code = none;
  error = none;
  status = starting;
  started_at = some now;
  url = if is_dev cfg.kind then some (local_url project.port) else none;
}

-- An entry that a session exposes; a process of ours keeps its status.
abbrev pub shown : ℕ → ℕ → String → Managed → Managed
shown now port url m = record m {
  port = port;
  url = some url;
  status = if m.managed then m.status else running;
  started_at = if is_some m.started_at then m.started_at else some now;
}

pub data Spawned : Type 0 where
  raised : String → Spawned
  without_pid : String → Spawned  -- with the text of its error event
  spawned : ℕ → Spawned

pub data Outcome : Type 0 where
  failed : Supervisor → Outcome  -- an exception
  done : Supervisor → ℕ → Outcome  -- the object whose info is returned
  probing : Supervisor → ℕ → Config → Outcome

module _ (slugify : String → String) (numbered : String → ℕ → String) where
  -- The object under a key, or a new one.
  unfoldable pub find_or_add : String → Managed → Supervisor → Supervisor × ℕ
  find_or_add key fresh s = elim (get key s.services) [
    | some i ↦ (s, i)
    | none ↦ (
      record (change s.next (λ m. fresh) s) {
        next = s.next + 1;
        services = set key s.next s.services;
      },
      s.next,
    )
  ]

  abbrev pub up_already : Option ℕ → Supervisor → Option ℕ
  up_already none s = none
  up_already (some i) s = if is_up (s.objects i).status then some i else none

  module _ (trim : String → String) (local_url : ℕ → String) (log_cap : ℕ) where
    -- From where no live service is found, up to the probe.
    unfoldable pub begin_service : ℕ → Project → String → Config → Supervisor → Outcome
    unfolding persist find_or_add
    begin_service now project name cfg s =
        let (s₁, i) =
          find_or_add (key_of project.id name)
            (new_managed project.id name cfg.kind cfg.command project.port true s.rows) s in
        let s₂ = change i (begun local_url now project cfg) s₁ in
        let (s₃, written_ok) =
          persist slugify numbered i project
            (if is_dev cfg.kind then wants_running else wants_stopped) s₂ in
        if written_ok then probing (push_status i s₃) i cfg else failed s₃

    unfoldable pub start_service : ℕ → Project → String → Supervisor → Outcome
    unfolding configured_command begin_service
    start_service now project name s = elim (configured_command trim project name) [
      | none ↦ failed s
      | some cfg ↦
          if str_eq project.repo_path ""
          then failed s
          else elim (up_already (get (key_of project.id name) s.services) s) [
            | some i ↦ done s i
            | none ↦ begin_service now project name cfg s
          ]
    ]

    abbrev log_and_push : ℕ → Line → Supervisor → Supervisor
    log_and_push i line s = push_status i (add_log log_cap i line s)

    unfoldable pub on_error : ℕ → String → Supervisor → Supervisor
    on_error i message s =
        let line = process_error message in
        log_and_push i line (change i (λ m. record m { status = errored; error = some line }) s)

    -- The probe's answer, which counts for a dev server only, and what spawn gives. A process that
    -- has no pid is followed by its error at once.
    unfoldable pub spawn_service : ℕ → Project → Config → Bool → Spawned → Supervisor → Supervisor
    unfolding on_error
    spawn_service i project cfg port_free result s =
        if is_dev cfg.kind && not port_free
        then (let line = port_taken (s.objects i).port cfg.command in
            log_and_push i line
              (change i (λ m. record m { status = errored; url = none; error = some line }) s))
        else elim result [
          | raised message ↦
              let line = failed_to_start message in
              log_and_push i line
                (change i (λ m. record m { status = errored; proc = none; error = some line }) s)
          | without_pid message ↦
              let s₁ = change i (λ m. record m { proc = none; status = running }) s in
              on_error i message (log_and_push i (started cfg.command project.port none) s₁)
          | spawned pid ↦
              let s₁ = change i (λ m. record m { proc = some pid; status = running }) s in
              let m = s₁.objects i in
              push_status i (
                add_log log_cap i (started cfg.command project.port (some pid))
                  (set_pid m.project_id m.name pid s₁))
        ]

    abbrev clean_exit : Option ℕ → Option String → Bool
    clean_exit (some code) none = code == 0
    clean_exit (some code) (some signal) =
        code == 0 || (str_eq signal "SIGTERM" || str_eq signal "SIGKILL")
    clean_exit none none = false
    clean_exit none (some signal) = str_eq signal "SIGTERM" || str_eq signal "SIGKILL"

    abbrev last_words : Option ℕ → Option String → Line
    last_words code none = exited_with code
    last_words code (some signal) =
        if str_eq signal "" then exited_with code else stopped_by_signal signal

    unfoldable pub on_exit : ℕ → Option ℕ → Option String → Supervisor → Supervisor
    on_exit i code signal s =
        let s₁ =
          change i
            (λ m. record m {
              proc = none;
              exit_code = code;
              status = if clean_exit code signal then exited else errored;
              url = if is_dev m.kind then none else m.url;
            })
            s in
        let m = s₁.objects i in
        push_status i
          (add_log log_cap i (last_words code signal) (set_pid m.project_id m.name 0 s₁))

    unfoldable pub on_output : ℕ → String → Supervisor → Supervisor
    on_output i text s = add_log log_cap i (output text) s

    abbrev kill_group : Option ℕ → Supervisor → Supervisor
    kill_group none s = s
    kill_group (some pid) s = record s { signalled = pid ∷ s.signalled }

    unfoldable pub stop_service : String → String → Supervisor → Supervisor × Option ℕ
    unfolding set_desired
    stop_service project_id name s = elim (get (key_of project_id name) s.services) [
      | none ↦ (s, none)
      | some i ↦
          let s₁ = set_desired project_id name wants_stopped s in
          if is_some (s₁.objects i).proc
          then (kill_group (s₁.objects i).proc s₁, some i)
          else (push_status i (change i (λ m. record m { status = stopped }) s₁), some i)
    ]

    unfoldable pub remove_entry : String → String → ℕ → Supervisor → Supervisor
    remove_entry project_id key i s =
        if str_eq (s.objects i).project_id project_id
        then emit project_id (removed_event (s.objects i).name)
            (kill_group (s.objects i).proc (record s { services = delete key s.services }))
        else s

    unfoldable pub remove_entries : String → List (String × ℕ) → Supervisor → Supervisor
    unfolding remove_entry
    remove_entries project_id [] s = s
    remove_entries project_id ((key, i) ∷ entries) s =
        remove_entries project_id entries (remove_entry project_id key i s)

    unfoldable pub remove_project_services : String → Supervisor → Supervisor
    unfolding remove_entries
    remove_project_services project_id s = remove_entries project_id s.services s

    abbrev pub given_or : String → Option String → String
    given_or other none = other
    given_or other (some u) = if str_eq (trim u) "" then other else trim u

    -- The url given, trimmed, or the local one.
    unfoldable pub expose_service : ℕ → Project → String → ℕ → Option String → Supervisor → Outcome
    unfolding configured_command find_or_add persist
    expose_service now project name port url s =
        let cfg = configured_command trim project name in
        let (s₁, i) =
          find_or_add (key_of project.id name)
            (new_managed project.id name (config_or cfg (λ c. c.kind) exposed)
              (config_or cfg (λ c. c.command) "") port false s.rows)
            s in
        let s₂ = change i (shown now port (given_or (local_url port) url)) s₁ in
        let (s₃, written_ok) = persist slugify numbered i project wants_stopped s₂ in
        if written_ok
        then done (push_status i (add_log log_cap i (exposed_on port) s₃)) i
        else failed s₃

    -- runningServiceCount
    unfoldable pub running_service_count : List (String × ℕ) → Supervisor → ℕ
    running_service_count [] s = 0
    running_service_count ((k, i) ∷ entries) s =
        (if (s.objects i).managed && is_up (s.objects i).status then 1 else 0)
        + running_service_count entries s
