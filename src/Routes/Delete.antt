-- ===== src/Routes/Delete.antt =====
-- app/api/tasks/[id]/route.ts: DELETE. The cascades of lib/db.ts are those to the rows that World has.
-- Files on disk and the note to the other tabs are left out.
use operator_oss.Base.{ℕ, Bool, false, not, ◌&&◌, none, some, String, str_eq, if◌then◌else◌, filter}
use operator_oss.Maps.{get, delete}
use operator_oss.Turns.{begin_task_deletion, end_task_deletion}
use operator_oss.World.{World, Task, get_task}

-- What the rest of the process does while the turn and the agents' processes settle, and while the
-- worktree is removed, and whether they settled.
pub record Teardown : Type 0 where
  pub settles : Bool
  pub during_settle : World → World
  pub during_remove : World → World

-- DELETE FROM tasks WHERE id = ?, with its cascades.
unfoldable pub delete_rows : String → World → World
delete_rows id w = record w {
  tasks = delete id w.tasks;
  pending = filter (λ r. not (str_eq r.task_id id)) w.pending;
  messages = filter (λ m. not (str_eq m.task_id id)) w.messages;
  sessions = filter (λ s. not (str_eq s.task_id id)) w.sessions;
  usage = filter (λ u. not (str_eq u.0 id)) w.usage;
}

abbrev has_repository : Task → World → Bool
has_repository t w = elim (get t.project_id w.projects) as (λ _. Bool) [
  | none ↦ false
  | some p ↦ not (str_eq p.repo_path "")
]

abbrev pub end_deletion : String → World → World
end_deletion id w = record w { turns = end_task_deletion id w.turns }

-- The world after the wait for the turn and the agents' processes, with the deletion's mark set.
abbrev pub settling : String → Teardown → World → World
settling id o w = o.during_settle (record w { turns = (begin_task_deletion id w.turns).0 })

abbrev pub remove_tree : Task → Teardown → World → World
remove_tree t o w =
    if not (str_eq t.worktree_path "") && has_repository t w then o.during_remove w else w

-- The HTTP status, and the world.
unfoldable pub delete_task : String → Teardown → World → ℕ × World
unfolding delete_rows
delete_task id o w = elim (get_task id w) [
  | none ↦ (404, w)
  | some t ↦
      let began = (begin_task_deletion id w.turns).1 in
      if not began
      then (409, w)
      else (let w₁ = settling id o w in
          if not o.settles
          then (409, end_deletion id w₁)
          else (200, end_deletion id (delete_rows id (remove_tree t o w₁))))
]
