-- ===== src/Services.antt =====
-- lib/services.ts: the supervisor of a project's services: its registry in memory, the rows of the
-- services table, and the public hostname labels. An entry of the registry is an object, which a
-- running process's handlers keep after the entry is dropped: objects have numbers here. The ids and
-- times of rows are left out. A log line and an error are kept as what they say, not as their text;
-- a status event carries the object that toInfo reads. No label is empty. The gate's secret, which
-- persist makes sure of, is no part of this.
pub mod Rows
pub mod Lifecycle
pub mod Runs
pub mod Sharing
pub mod Slugs
pub mod Labels
pub mod Logs
pub mod Processes
pub mod Tracking
pub mod Stopping
use Prim.Native.String.{◌++◌ as append}
use operator_oss.Base.{
  ℕ, zero, suc, ◌+◌, Bool, true, false, not, ◌&&◌, ◌||◌, Option, none, some, List, [], ◌∷◌, ◌++◌,
  String, str_eq, ◌==◌, ltb, if◌then◌else◌, length,
}
use operator_oss.Maps.{get, set}

pub data Kind : Type 0 where
  dev setup test exposed : Kind

pub data Status : Type 0 where
  stopped starting running exited errored : Status

pub data Visibility : Type 0 where
  private shared public : Visibility

pub data Desired : Type 0 where
  wants_running wants_stopped : Desired

pub data Line : Type 0 where
  port_taken : ℕ → String → Line
  failed_to_start : String → Line
  started : String → ℕ → Option ℕ → Line
  process_error : String → Line
  stopped_by_signal : String → Line
  exited_with : Option ℕ → Line
  exposed_on : ℕ → Line
  output : String → Line

pub record Managed : Type 0 where
  pub project_id : String
  pub name : String
  pub kind : Kind
  pub command : String
  pub port : ℕ
  pub proc : Option ℕ  -- m.proc?.pid
  pub status : Status
  pub exit_code : Option ℕ
  pub url : Option String
  pub started_at : Option ℕ
  pub managed : Bool
  pub error : Option Line
  pub logs : List Line  -- oldest first
  pub slug : Option String
  pub visibility : Visibility
  pub share_token : String

pub record Row : Type 0 where
  pub project_id : String
  pub name : String
  pub slug : String
  pub kind : Kind
  pub command : String
  pub port : ℕ
  pub managed : Bool
  pub desired : Desired
  pub visibility : Visibility
  pub share_token : String
  pub pid : ℕ

pub data ServiceEvent : Type 0 where
  status_event : Managed → ServiceEvent
  log_event : String → Line → ServiceEvent
  removed_event : String → ServiceEvent

pub record Supervisor : Type 0 where
  pub objects : ℕ → Managed
  pub next : ℕ
  pub services : List (String × ℕ)
  pub rows : List Row
  pub events : List (String × ServiceEvent)  -- newest first
  pub signalled : List ℕ  -- process groups told to end

pub record Project : Type 0 where
  pub id : String
  pub name : String
  pub repo_path : String
  pub port : ℕ
  pub dev_command : String
  pub setup_command : String
  pub test_command : String

abbrev pub key_of : String → String → String
key_of project_id name = append project_id (append ":" name)

abbrev pub is_row : String → String → Row → Bool
is_row project_id name r = str_eq r.project_id project_id && str_eq r.name name

unfoldable pub row_for : String → String → List Row → Option Row
row_for project_id name [] = none
row_for project_id name (r ∷ rows) =
    if is_row project_id name r then some r else row_for project_id name rows

unfoldable pub taken : String → List Row → Bool
taken s [] = false
taken s (r ∷ rows) = str_eq r.slug s || taken s rows

unfoldable pub hydrate : List Row → Managed → Managed
hydrate rows m = elim (row_for m.project_id m.name rows) [
  | none ↦ m
  | some r ↦ record m { slug = some r.slug; visibility = r.visibility; share_token = r.share_token }
]

unfoldable pub new_managed : String → String → Kind → String → ℕ → Bool → List Row → Managed
unfolding hydrate
new_managed project_id name kind command port managed rows = hydrate rows (record {
  project_id = project_id;
  name = name;
  kind = kind;
  command = command;
  port = port;
  proc = none;
  status = stopped;
  exit_code = none;
  url = none;
  started_at = none;
  managed = managed;
  error = none;
  logs = [];
  slug = none;
  visibility = private;
  share_token = "";
})

abbrev pub change : ℕ → (Managed → Managed) → Supervisor → Supervisor
change i f s = record s { objects = λ j. if j == i then f (s.objects i) else s.objects j }

abbrev pub emit : String → ServiceEvent → Supervisor → Supervisor
emit project_id ev s = record s { events = (project_id, ev) ∷ s.events }

abbrev pub push_status : ℕ → Supervisor → Supervisor
push_status i s = emit (s.objects i).project_id (status_event (s.objects i)) s

-- `m.logs.push(line); if (m.logs.length > LOG_CAP) m.logs.shift();`
unfoldable pub shift_over : ℕ → List Line → List Line
shift_over cap [] = []
shift_over cap (x ∷ xs) = if ltb cap (length (x ∷ xs)) then xs else x ∷ xs

unfoldable pub push_line : ℕ → Line → List Line → List Line
unfolding shift_over
push_line cap line logs = shift_over cap (logs ++ (line ∷ []))

unfoldable pub add_lines : ℕ → List Line → List Line → List Line
unfolding push_line
add_lines cap [] logs = logs
add_lines cap (line ∷ lines) logs = add_lines cap lines (push_line cap line logs)

unfoldable pub add_log : ℕ → ℕ → Line → Supervisor → Supervisor
unfolding push_line
add_log cap i line s =
    let s' = change i (λ m. record m { logs = push_line cap line m.logs }) s in
    emit (s.objects i).project_id (log_event (s.objects i).name line) s'

-- `!taken(`${base}-${i}`)`, from `i` on.
unfoldable pub first_free : (ℕ → String) → List Row → ℕ → ℕ → Option String
first_free candidate rows zero i = none
first_free candidate rows (suc fuel) i =
    let rest = first_free candidate rows fuel (i + 1) in
    if taken (candidate i) rows then rest else some (candidate i)

abbrev or_else : String → String → String
or_else a b = if str_eq a "" then b else a

module _ (slugify : String → String) (numbered : String → ℕ → String) where
  abbrev pub base_slug : String → Project → String
  base_slug name project =
      or_else (slugify (if str_eq name "dev" then project.name else name))
        (or_else (slugify project.name) "svc")

  -- The loop over suffixes has one candidate more than there are rows.
  unfoldable pub fresh_slug : String → Project → List Row → Option String
  unfolding first_free
  fresh_slug name project rows =
      let base = base_slug name project in
      let qualified = slugify (append project.name (append "-" name)) in
      if not (taken base rows)
      then some base
      else if not (str_eq qualified "") && not (taken qualified rows)
      then some qualified
      else first_free (numbered base) rows (suc (length rows)) 2

  unfoldable pub assign_slug : Managed → Project → List Row → Option String
  unfolding fresh_slug
  assign_slug m project rows = elim m.slug [
    | some s ↦ some s
    | none ↦ fresh_slug m.name project rows
  ]
