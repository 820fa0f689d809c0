-- ===== src/Tests/ClearRuns.antt =====
-- app/api/tasks/[id]/clear/route.ts on a task whose turn streams.
use operator_oss.Base.{◌≡◌, refl, Option, some, []}
use operator_oss.Maps.{get}
use operator_oss.Turns.{has_turn}
use operator_oss.Pending.{list_pending_messages}
use operator_oss.World.{World, get_task}
use operator_oss.Runner.Settle.{Drain, settled, settle}
use operator_oss.Clear.{to_agent, fresh_row, begin_clear, clear_task}
use operator_oss.Clear.Resetting.{clear_task_is_final}
use operator_oss.Tests.RunnerRuns.{classifiers, task, turn, world}

row_there : get_task "a" (begin_clear "a" world) ≡ some task
unfolding begin_clear has_turn get
row_there = refl

clear_task_is_final_example :
    (w₁ w₂ : World) × (d : Option Drain) × (clear_task "a" 1
        (to_agent "codex")
        (λ w. w)
        "so far"
        world
      ≡ some w₁)
    × (get_task "a" w₁ ≡ some (fresh_row 1 (to_agent "codex") task))
    × (list_pending_messages "a" w₁.pending ≡ [])
    × (settle classifiers turn w₁ ≡ settled w₂ d)
    × (get_task "a" w₂ ≡ some (fresh_row 1 (to_agent "codex") task))
clear_task_is_final_example =
    clear_task_is_final "a" 1 (to_agent "codex") (λ w. w) "so far" world task classifiers turn
      row_there refl refl
