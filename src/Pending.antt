-- ===== src/Pending.antt =====
-- lib/store.ts: the parked follow-ups of a task, table pending_messages. A row's id (nanoid) is a
-- number that no other row has; rows stand in the order of their rowid.
pub mod Order
pub mod Queue
use operator_oss.Base.{
  ℕ, Bool, not, Option, none, some, List, [], ◌∷◌, ◌++◌, String, str_eq, ◌==◌, ◌&&◌, leb,
  if◌then◌else◌, filter,
}

pub record PendingMessage : Type 0 where
  pub id : ℕ
  pub task_id : String
  pub generation : ℕ
  pub content : String
  pub created_at : ℕ

-- ORDER BY created_at ASC, rowid ASC.
unfoldable pub insert_by_age : PendingMessage → List PendingMessage → List PendingMessage
insert_by_age r [] = r ∷ []
insert_by_age r (x ∷ xs) =
    if leb r.created_at x.created_at then r ∷ x ∷ xs else x ∷ insert_by_age r xs

unfoldable pub order_by_age : List PendingMessage → List PendingMessage
unfolding insert_by_age
order_by_age [] = []
order_by_age (x ∷ xs) = insert_by_age x (order_by_age xs)

unfoldable pub list_pending_messages : String → List PendingMessage → List PendingMessage
unfolding order_by_age
list_pending_messages task rows = order_by_age (filter (λ r. str_eq r.task_id task) rows)

unfoldable pub add_pending_message :
    ℕ → ℕ → String → ℕ → String → List PendingMessage → List PendingMessage × PendingMessage
add_pending_message id now task generation content rows =
    let row : PendingMessage = record {
      id = id;
      task_id = task;
      generation = generation;
      content = content;
      created_at = now;
    } in
    (rows ++ (row ∷ []), row)

-- DELETE … WHERE id = ?
unfoldable pub delete_row : ℕ → List PendingMessage → List PendingMessage
delete_row id rows = filter (λ r. not (r.id == id)) rows

unfoldable pub pop_pending_message :
    String → List PendingMessage → List PendingMessage × Option PendingMessage
unfolding list_pending_messages delete_row
pop_pending_message task rows = elim (list_pending_messages task rows) [
  | [] ↦ (rows, none)
  | row ∷ rest ↦ (delete_row row.id rows, some row)
]

abbrev pub first_row : List PendingMessage → Option PendingMessage
first_row [] = none
first_row (row ∷ rest) = some row

unfoldable pub delete_pending_message :
    ℕ → String → List PendingMessage → List PendingMessage × Option PendingMessage
unfolding delete_row
delete_pending_message id task rows =
    elim (first_row (filter (λ r. r.id == id && str_eq r.task_id task) rows)) [
      | none ↦ (rows, none)
      | some row ↦ (delete_row row.id rows, some row)
    ]

unfoldable pub clear_pending_messages :
    String → List PendingMessage → List PendingMessage × List PendingMessage
unfolding list_pending_messages
clear_pending_messages task rows =
    (filter (λ r. not (str_eq r.task_id task)) rows, list_pending_messages task rows)
