-- ===== src/Tests/RunnerRuns.antt =====
-- lib/runner.ts on a concrete task with one parked message.
use operator_oss.Base.{◌≡◌, ◌⊎◌, refl, inr, Bool, true, false, Option, none, some, [], ◌∷◌}
use operator_oss.Maps.{get, set}
use operator_oss.Sets.{member}
use operator_oss.Turns.{has_turn, owns_turn, handoff_turn}
use operator_oss.Pending.{PendingMessage}
use operator_oss.World.{World, WorkspaceMode, Task, Status, get_task}
use operator_oss.Runner.{Classifiers, Turn}
use operator_oss.Runner.Settle.{Drain, settled, settle}
use operator_oss.Runner.Events.{Stream, yields, ends, session, asks, ask_answered, consume}
use operator_oss.Runner.Asking.{IsAsking, consume-IsAsking}
use operator_oss.Runner.Launch.{
  running, threw, foreign_key, while_waiting, resume_holding, launched, dropped, launch_drain,
  note_of, catch_up,
}
use operator_oss.Runner.Clearing.{clear_in_catch_up_sticks}
use operator_oss.Runner.Settle.{
  settle_row, settle_login, settle_session, track_end, is_superseded, is_stopped, is_advanced,
}
use operator_oss.Runner.Crash.{in_queue, end_turn, run_finally, queue_fault, last_resort}
use operator_oss.Runner.Crashing.{IsOver, end_turn-IsOver}
use operator_oss.Runner.Launching.{IsLaunched, launch_drain_runs}

abbrev pub task : Task
task = record {
  project_id = "p";
  title = "Fix";
  description = "it";
  agent = "claude";
  model = none;
  reasoning = none;
  permission_mode = none;
  workspace_mode = WorkspaceMode.direct;
  launch_config_required = false;
  launch_config_confirmed_at = 0;
  generation = 1;
  status = Status.in_progress;
  suggested = false;
  started = true;
  running = true;
  awaiting_input = false;
  session_id = some "s";
  resolved_model = none;
  turn_started_at = none;
  worktree_path = "";
  work_branch = "";
  base_sha = "";
}

abbrev message : PendingMessage
message = record { id = 5; task_id = "a"; generation = 1; content = "go on"; created_at = 10 }

abbrev pub world : World
world = record {
  clock = 20;
  next_id = 6;
  turns = record { turns = ("a", 0) ∷ []; deleting = []; next = 1; aborted = [] };
  tasks = ("a", task) ∷ [];
  projects = ("p", record { repo_path = "/r"; branch = "main" }) ∷ [];
  pending = message ∷ [];
  messages = [];
  sessions = [];
  usage = [];
  broken = [];
  first_task = true;
  bus = [];
  lifecycle = [];
  tracked = [];
}

abbrev pub turn : Turn
turn = record {
  task_id = "a";
  gen = 1;
  agent = "claude";
  was_started = true;
  started_at = 15;
  controller = 0;
  session_id = some "s";
  opened = true;
  registers = false;
  registered = false;
  tool_msgs = [];
  open_asks = [];
  turn_usage = none;
  turn_error = none;
  auth_failure = none;
  usage_limit_failure = none;
}

abbrev pub classifiers : Classifiers
classifiers = record {
  is_prompt_too_long = λ s. false;
  is_auth_failure = λ s. false;
  is_usage_limit = λ s. false;
}

-- A session opens, two asks are parked, and one is answered.
abbrev stream : Stream
stream =
    yields (λ w. w) (session "s")
      (yields (λ w. w) (asks "x" "which?")
        (yields (λ w. w) (asks "y" "why?") (yields (λ w. w) (ask_answered "x" "this") ends)))

consume-IsAsking_example :
    IsAsking (consume classifiers turn stream world).0 (consume classifiers turn stream world).1
unfolding get member
consume-IsAsking_example =
    consume-IsAsking classifiers turn stream world
      ((λ w. inr refl), ((λ w. inr refl), ((λ w. inr refl), ((λ w. inr refl), tt))))
      (record { known = λ id h. cc; flagged = inr refl })

abbrev drain : Drain
drain = record { controller = 0; message = message }

launch_drain_runs_example :
    ((w' : World) × (launch_drain classifiers "a" 1 false none (λ w. w) drain world ≡ dropped w')
      × (owns_turn "a" 0 w'.turns ≡ false))
    ⊎ ((r : Task) × (w' : World) × (get_task "a" world ≡ some r)
        × (get_task "a" (while_waiting r (λ w. w) world) ≡ none)
        × (launch_drain classifiers "a" 1 false none (λ w. w) drain world
            ≡ launched (threw foreign_key w'))
        × (owns_turn "a" 0 w'.turns ≡ false))
    ⊎ ((r : Task) × (t : Turn) × (resume : Bool) × (w' : World) × (get_task "a" world ≡ some r)
        × (r.generation ≡ 1)
        × (owns_turn "a" 0 world.turns ≡ true)
        × (launch_drain classifiers "a" 1 false none (λ w. w) drain world
            ≡ launched (running t resume (note_of (catch_up r none)) w'))
        × IsLaunched "a" r none 0 (while_waiting r (λ w. w) world) t w')
launch_drain_runs_example = launch_drain_runs classifiers "a" 1 false none (λ w. w) drain world

abbrev isolated : Task
isolated = record task { worktree_path = "/r/t"; work_branch = "work" }

abbrev cleared : Task
cleared = record isolated { generation = 2; session_id = none; started = false; running = false }

abbrev clear_it : World → World
clear_it w = record w { tasks = ("a", cleared) ∷ [] }

clear_found : get_task "a" (while_waiting isolated clear_it world) ≡ some cleared
unfolding get
clear_found = refl

clear_in_catch_up_sticks_example :
    (t : Turn) × (resume : Bool) × (w₁ w₂ : World) × (d : Option Drain) × (last : Task)
    × (resume_holding "a" isolated false none clear_it "go on" 0 world
        ≡ running t resume (note_of (catch_up isolated none)) w₁)
    × (settle classifiers t w₁ ≡ settled w₂ d)
    × (get_task "a" w₂ ≡ some last)
    × (last.running ≡ true)
    × (last.generation ≡ 2)
clear_in_catch_up_sticks_example =
    clear_in_catch_up_sticks classifiers "a" isolated cleared false none clear_it "go on" 0 world
      clear_found refl

-- A handoff was made, and the queue cannot be read: the new controller keeps the slot.
end_turn-IsOver_example :
    IsOver classifiers (some in_queue) turn world (end_turn classifiers (some in_queue) turn world)
end_turn-IsOver_example = end_turn-IsOver classifiers (some in_queue) turn world

lost_slot : owns_turn "a" 1 (end_turn classifiers (some in_queue) turn world).0.turns ≡ true
unfolding end_turn run_finally queue_fault last_resort owns_turn handoff_turn settle_row
    settle_login settle_session track_end is_superseded is_stopped is_advanced get set has_turn
    member operator_oss.Runner.clear_agent_auth_broken operator_oss.World.end_session
    operator_oss.World.track operator_oss.World.update_task operator_oss.Turns.unregister_turn
lost_slot = refl
