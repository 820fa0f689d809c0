-- ===== src/Tests/RouteRuns.antt =====
-- app/api/tasks/[id] on a concrete task with a live turn and a parked message, and on a suggestion.
use operator_oss.Base.{
  ◌≡◌, ◌⊎◌, refl, ℕ, Bool, true, false, Option, none, some, List, [], ◌∷◌, String, str_eq, arith,
  mem, if◌then◌else◌,
}
use operator_oss.Maps.{get, set}
use operator_oss.Sets.{member}
use operator_oss.Turns.{has_turn, is_task_deleting}
use operator_oss.Pending.{list_pending_messages}
use operator_oss.World.{World, Task, get_task, update_task}
use operator_oss.Deps.{Edge, set_task_deps, valid_deps, search, replace_edges}
use operator_oss.LaunchConfig.{Capabilities, find_model, validate_launch_configuration}
use operator_oss.Routes.Send.{Outside, post_message, needs_review}
use operator_oss.Routes.Sending.{Handled, post_message-Handled}
use operator_oss.Routes.Stop.{post_abort}
use operator_oss.Routes.Stopping.{announced, post_abort_cases}
use operator_oss.Routes.Delete.{Teardown, delete_task, settling, remove_tree}
use operator_oss.Routes.Deleting.{delete_task_cases}
use operator_oss.Routes.Edit.{Edit, saved, crashed, with_columns, edit_of, apply_edit, patch_task}
use operator_oss.Routes.Editing.{nulls_in}
use operator_oss.Routes.Patching.{
  Refused, Crashed, Written, patch_task_cases, confirmed_needs_no_review,
}
use operator_oss.Tests.RunnerRuns.{task, world}

abbrev claude : Capabilities
claude = record {
  models = record { value = "opus"; reasoning_values = none } ∷ [];
  reasoning_options = "high" ∷ [];
  permission_modes = "bypassPermissions" ∷ "plan" ∷ [];
}

abbrev catalog : String → Option Capabilities
catalog agent = if str_eq agent "claude" then some claude else none

abbrev trim : String → String
trim s = s

abbrev too_large : String → Bool
too_large s = false

abbrev idle_world : World
idle_world = record world {
  turns = record { turns = []; deleting = []; next = 1; aborted = [] };
  tasks = ("a", record task { running = false }) ∷ [];
}

abbrev outside : Outside
outside = record {
  text = "go on";
  directory_ok = true;
  on_disk = true;
  tree = none;
  sync = none;
  registers = false;
  during_body = λ w. w;
  during_lock = λ w. w;
  during_tree = λ w. w;
  during_sync = λ w. w;
}

post_message-Handled_example :
    Handled catalog trim too_large "a" outside idle_world
      (post_message catalog trim too_large "a" outside idle_world)
post_message-Handled_example = post_message-Handled catalog trim too_large "a" outside idle_world

post_abort_cases_example :
    ((has_turn "a" world.turns ≡ false) × (post_abort "a" world ≡ (world, false)))
    ⊎ ((c : ℕ) × (w' : World) × (get "a" world.turns.turns ≡ some c)
        × (post_abort "a" world ≡ (w', true))
        × (mem c w'.turns.aborted ≡ true)
        × (has_turn "a" w'.turns ≡ false)
        × (list_pending_messages "a" w'.pending ≡ [])
        × (w'.bus ≡ announced "a" (list_pending_messages "a" world.pending) world.bus)
        × (w'.tasks ≡ world.tasks)
        × (get "b" w'.turns.turns ≡ get "b" world.turns.turns)
        × (list_pending_messages "b" w'.pending ≡ list_pending_messages "b" world.pending))
post_abort_cases_example = post_abort_cases "a" "b" world refl

abbrev teardown : Teardown
teardown = record { settles = true; during_settle = λ w. w; during_remove = λ w. w }

delete_task_cases_example :
    ((get_task "a" world ≡ none) × (delete_task "a" teardown world ≡ (404, world)))
    ⊎ ((is_task_deleting "a" world.turns ≡ true) × (delete_task "a" teardown world ≡ (409, world)))
    ⊎ ((t : Task) × (w' : World) × (get_task "a" world ≡ some t)
        × (is_task_deleting "a" world.turns ≡ false)
        × (is_task_deleting "a" w'.turns ≡ false)
        × (((true ≡ false)
              × (delete_task "a" teardown world ≡ (409, w'))
              × (get_task "a" w' ≡ get_task "a" (settling "a" teardown world))
              × (w'.pending ≡ (settling "a" teardown world).pending))
            ⊎ ((true ≡ true)
                × (delete_task "a" teardown world ≡ (200, w'))
                × (get_task "a" w' ≡ none)
                × (list_pending_messages "a" w'.pending ≡ [])
                × (get_task "b" w'
                    ≡ get_task "b" (remove_tree t teardown (settling "a" teardown world))))))
delete_task_cases_example = delete_task_cases "a" "b" teardown world refl

abbrev settings : String → Option String
settings key = none

-- A suggestion with a full setup, and the request that confirms it.
abbrev suggestion : Task
suggestion = record task {
  model = some "opus";
  reasoning = some "high";
  launch_config_required = true;
  started = false;
  running = false;
  session_id = none;
}

abbrev suggested_world : World
suggested_world = record idle_world { tasks = ("a", suggestion) ∷ [] }

abbrev confirmation : Edit
confirmation = record {
  title = none;
  description = none;
  status = none;
  suggested = none;
  model = none;
  reasoning = none;
  permission_mode = none;
  workspace_mode = none;
  agent = none;
  confirm = true;
  depends_on = none;
}

-- The dependencies are written, and the title of null then makes the request fail.
abbrev null_title : Edit
null_title = record confirmation { title = some none; confirm = false; depends_on = some [] }

null_title_crashes :
    patch_task catalog claude settings "a" null_title suggested_world
      (record { task_id = "a"; depends_on_id = "b" } ∷ [])
    ≡ crashed suggested_world []
unfolding patch_task edit_of apply_edit set_task_deps valid_deps search replace_edges with_columns
    get set has_turn find_model validate_launch_configuration member
null_title_crashes = refl

patch_task_cases_example :
    Refused catalog claude settings "a" confirmation suggested_world []
      (patch_task catalog claude settings "a" confirmation suggested_world [])
    ⊎ Crashed catalog claude settings "a" confirmation suggested_world []
        (patch_task catalog claude settings "a" confirmation suggested_world [])
    ⊎ ((w' : World) × (edges' : List Edge) × (patch_task catalog claude settings "a" confirmation
            suggested_world []
          ≡ saved w' edges')
        × Written catalog claude settings "a" "b" confirmation suggested_world w'
        × (nulls_in catalog claude settings confirmation ≡ false))
patch_task_cases_example =
    patch_task_cases catalog claude settings "a" "b" confirmation suggested_world []

abbrev confirmed_world : World
confirmed_world = record suggested_world {
  tasks = ("a", record suggestion { launch_config_confirmed_at = 20 }) ∷ [];
}

confirmed :
    patch_task catalog claude settings "a" confirmation suggested_world []
    ≡ saved confirmed_world []
unfolding patch_task edit_of apply_edit with_columns get set update_task has_turn find_model
    validate_launch_configuration member
confirmed = refl

confirmed_needs_no_review_example :
    (t : Task) × (get_task "a" confirmed_world ≡ some t)
    × (needs_review catalog trim too_large t ≡ false)
confirmed_needs_no_review_example =
    confirmed_needs_no_review catalog claude settings trim too_large "a" confirmation
      suggested_world confirmed_world [] [] confirmed refl (omega arith)
