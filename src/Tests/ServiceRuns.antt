-- ===== src/Tests/ServiceRuns.antt =====
-- lib/services.ts: a project's dev server.
use Prim.Native.String.{◌++◌ as append, count}
use text.Mathlib.TextLemmas.{length-append}
use operator_oss.Base.{
  ℕ, zero, suc, ◌≤◌, ◌≡◌, ◌⊎◌, refl, ap, true, false, none, some, List, [], ◌∷◌, String, length,
  arith,
}
use operator_oss.Maps.{get}
use operator_oss.Services.{
  Line, output, Managed, Row, Supervisor, Project, wants_running, dev, running, starting, private,
  key_of, base_slug, row_for, taken, add_lines,
}
use operator_oss.Services.Logs.{last_lines, add_lines_last}
use operator_oss.Services.Lifecycle.{Config, spawned, spawn_service, stop_service}
use operator_oss.Services.Rows.{persist}
use operator_oss.Services.Labels.{AreDistinct, IsHydrated, label_of, persist_keeps_label}
use operator_oss.Services.Tracking.{run-IsTracked}
use operator_oss.Services.Processes.{IsTracked}
use operator_oss.Services.Runs.{Op, starts, probed, run}
use operator_oss.Services.Stopping.{stop_lost_in_probe}

abbrev lines : List Line
lines = output "a" ∷ output "b" ∷ output "c" ∷ []

add_lines_last_example :
    (add_lines 2 lines [] ≡ last_lines 2 lines) × (length (add_lines 2 lines []) ≤ 2)
add_lines_last_example = add_lines_last 2 lines [] (omega arith)

keeps_two : add_lines 2 lines [] ≡ (output "b" ∷ output "c" ∷ [])
unfolding add_lines
keeps_two = refl

abbrev project : Project
project = record {
  id = "p";
  name = "shop";
  repo_path = "/r";
  port = 3000;
  dev_command = "npm run dev";
  setup_command = "";
  test_command = "";
}

abbrev service : Managed
service = record {
  project_id = "p";
  name = "dev";
  kind = dev;
  command = "npm run dev";
  port = 3000;
  proc = none;
  status = starting;
  exit_code = none;
  url = none;
  started_at = none;
  managed = true;
  error = none;
  logs = [];
  slug = none;
  visibility = private;
  share_token = "";
}

-- Another project has the label.
abbrev row : Row
row = record {
  project_id = "q";
  name = "dev";
  slug = "shop";
  kind = dev;
  command = "x";
  port = 3001;
  managed = true;
  desired = wants_running;
  visibility = private;
  share_token = "";
  pid = 0;
}

abbrev empty : Supervisor
empty = record {
  objects = λ i. service;
  next = 1;
  services = (key_of "p" "dev", 0) ∷ [];
  rows = row ∷ [];
  events = [];
  signalled = [];
}

abbrev slugify : String → String
slugify s = s

tally : ℕ → String
tally zero = ""
tally (suc k) = append "1" (tally k)

abbrev numbered : String → ℕ → String
numbered base k = append base (tally k)

count-tally : (k : ℕ) → count (tally k) ≡ k
unfolding tally
count-tally zero = refl
count-tally (suc k) = omega (arith, length-append "1" (tally k), count-tally k)

numbered_injective : (base : String) (j k : ℕ) → numbered base j ≡ numbered base k → j ≡ k
numbered_injective base j k h = omega (
  arith,
  ap count h,
  length-append base (tally j),
  length-append base (tally k),
  count-tally j,
  count-tally k,
)

rows_distinct : AreDistinct empty.rows
unfolding AreDistinct taken
rows_distinct = (refl, tt)

hydrated : IsHydrated slugify numbered 0 empty
unfolding row_for
hydrated = refl

persist_keeps_label_example :
    ((persist slugify numbered 0 project wants_running empty).1 ≡ true)
    × AreDistinct (persist slugify numbered 0 project wants_running empty).0.rows
    × ((slug : String) × (((persist slugify numbered 0 project wants_running empty).0.objects
            0).slug
          ≡ some slug)
        × (label_of
              (row_for "p" "dev" (persist slugify numbered 0 project wants_running empty).0.rows)
            ≡ some slug)
        × ((label_of (row_for "p" "dev" empty.rows) ≡ some slug) ⊎ (taken slug empty.rows ≡ false)))
persist_keeps_label_example =
    persist_keeps_label slugify numbered 0 project wants_running empty
      (λ j k. numbered_injective (base_slug slugify numbered "dev" project) j k) rows_distinct
      hydrated

abbrev local_url : ℕ → String
local_url port = "http://localhost"

empty-IsTracked : IsTracked empty
empty-IsTracked j = refl

abbrev config : Config
config = record { kind = dev; command = "npm run dev" }

abbrev started_ops : List Op
started_ops = starts 5 project "dev" ∷ probed 0 project config true (spawned 77) ∷ []

run-IsTracked_example : IsTracked (run slugify numbered slugify local_url 10 started_ops empty)
run-IsTracked_example =
    run-IsTracked slugify numbered slugify local_url 10 started_ops empty empty-IsTracked

stop_lost_in_probe_example :
    ((stop_service slugify numbered slugify local_url 10 "p" "dev" empty).0.signalled ≡ [])
    × (((spawn_service slugify numbered slugify local_url 10 0 project config true
            (spawned 77)
            (stop_service slugify numbered slugify local_url 10 "p" "dev" empty).0).objects
          0).status
        ≡ running)
    × (((spawn_service slugify numbered slugify local_url 10 0 project config true
            (spawned 77)
            (stop_service slugify numbered slugify local_url 10 "p" "dev" empty).0).objects
          0).proc
        ≡ some 77)
stop_lost_in_probe_example =
    stop_lost_in_probe slugify numbered slugify local_url 10 0 project config 77 "dev" empty
      (unfold get in refl) refl refl
