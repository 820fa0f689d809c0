-- ===== src/Routes/Deleting.antt =====
-- app/api/tasks/[id]/route.ts: how a deletion ends.
use operator_oss.Base.{
  ◌≡◌, ◌⊎◌, refl, ap, ◌∙◌, inl, inr, true, false, not, none, some, [], String, str_eq, eq_refl,
  arith, Bool-cases, Option-cases,
}
use operator_oss.Maps.{get-delete_self, get-delete}
use operator_oss.Sets.{member-remove}
use operator_oss.Turns.{Registry, is_task_deleting, begin_task_deletion, end_task_deletion}
use operator_oss.Pending.{list_pending_messages, clear_pending_messages}
use operator_oss.Pending.Queue.{clear_pending_messages_empties}
use operator_oss.World.{World, Task, get_task}
use operator_oss.Routes.Delete.{
  Teardown, delete_rows, delete_task, settling, remove_tree, end_deletion,
}

deleting_ends :
    (id : String) (w : World) → is_task_deleting id (end_task_deletion id w.turns) ≡ false
unfolding is_task_deleting end_task_deletion
deleting_ends id w = ground (arith, member-remove id id w.turns.deleting, eq_refl id)

queue_gone : (id : String) (w : World) → list_pending_messages id (delete_rows id w).pending ≡ []
unfolding delete_rows
queue_gone id w =
    unfold clear_pending_messages in
    ground (arith, (clear_pending_messages_empties id id w.pending).1, eq_refl id)

row_gone : (id : String) (w : World) → get_task id (delete_rows id w) ≡ none
unfolding delete_rows
row_gone id w = get-delete_self id w.tasks

row_stays :
    (id other : String) (w : World)
    → str_eq id other ≡ false
    → get_task other (delete_rows id w) ≡ get_task other w
unfolding delete_rows
row_stays id other w apart = ground (arith, get-delete id other w.tasks)

began_iff :
    (id : String) (r : Registry) → (begin_task_deletion id r).1 ≡ not (is_task_deleting id r)
unfolding begin_task_deletion is_task_deleting
began_iff id r = ground arith

-- A deletion always takes its mark off again, and never stops half way. Of a task that is not there
-- or is being deleted it changes nothing; where the turn or the agents' processes do not settle it
-- fails, and the task's row and every queue are as that wait left them; else the row is gone with its
-- queue, and the row of any other task is as the removal of the worktree left it.
pub delete_task_cases :
    (id other : String) (o : Teardown) (w : World)
    → str_eq id other ≡ false
    → ((get_task id w ≡ none) × (delete_task id o w ≡ (404, w)))
      ⊎ ((is_task_deleting id w.turns ≡ true) × (delete_task id o w ≡ (409, w)))
      ⊎ ((t : Task) × (w' : World) × (get_task id w ≡ some t)
          × (is_task_deleting id w.turns ≡ false)
          × (is_task_deleting id w'.turns ≡ false)
          × (((o.settles ≡ false)
                × (delete_task id o w ≡ (409, w'))
                × (get_task id w' ≡ get_task id (settling id o w))
                × (w'.pending ≡ (settling id o w).pending))
              ⊎ ((o.settles ≡ true)
                  × (delete_task id o w ≡ (200, w'))
                  × (get_task id w' ≡ none)
                  × (list_pending_messages id w'.pending ≡ [])
                  × (get_task other w' ≡ get_task other (remove_tree t o (settling id o w))))))
unfolding delete_task
delete_task_cases id other o w apart = elim (Option-cases (get_task id w)) [
  | inl gone ↦ inl (gone, rw (gone, delete_task) refl)
  | inr (t, found) ↦ elim (Bool-cases (is_task_deleting id w.turns)) [
    | inl dying ↦
        let e : (begin_task_deletion id w.turns).1 ≡ false = began_iff id w.turns ∙ ap not dying in
        inr (inl (dying, rw (found, e, delete_task) refl))
    | inr alive ↦
        let e : (begin_task_deletion id w.turns).1 ≡ true = began_iff id w.turns ∙ ap not alive in
        elim (Bool-cases o.settles) [
          | inl done ↦
              let w₂ = remove_tree t o (settling id o w) in
              inr (
                inr (
                  t,
                  end_deletion id (delete_rows id w₂),
                  found,
                  alive,
                  deleting_ends id (delete_rows id w₂),
                  inr (
                    done,
                    rw (found, e, done, delete_task) refl,
                    row_gone id w₂,
                    queue_gone id w₂,
                    row_stays id other w₂ apart,
                  ),
                ))
          | inr stuck ↦ inr (
              inr (
                t,
                end_deletion id (settling id o w),
                found,
                alive,
                deleting_ends id (settling id o w),
                inl (stuck, rw (found, e, stuck, delete_task) refl, refl, refl),
              ))
        ]
  ]
]
