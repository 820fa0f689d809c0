-- ===== src/Pending/Queue.antt =====
-- lib/store.ts: the parked messages of a task are a first-in first-out queue.
use operator_oss.Base.{
  ℕ, ◌≤◌, ◌≡◌, ◌≢◌, refl, inl, inr, not, List, [], ◌∷◌, ◌++◌, String, str_eq, eq_iff, ◌==◌, arith,
  subst, sym, ◌∙◌, if◌then◌else◌, All, All-filter, Bool-cases,
}
use operator_oss.Pending.{
  PendingMessage, list_pending_messages, add_pending_message, delete_row, pop_pending_message,
  clear_pending_messages, first_row,
}
use operator_oss.Pending.Order.{
  Follows, IsOrdered, of_task, filter-IsOrdered, list_pending_messages-of_task, append-IsOrdered,
}

of_task-append :
    (task : String) (rows : List PendingMessage) (r : PendingMessage)
    → of_task task (rows ++ (r ∷ []))
      ≡ (if str_eq r.task_id task then of_task task rows ++ (r ∷ []) else of_task task rows)
of_task-append task [] r = ground arith
of_task-append task (x ∷ xs) r = ground (arith, of_task-append task xs r)

delete_row_absent :
    (x : PendingMessage) (rows : List PendingMessage)
    → All (Follows x) rows
    → delete_row x.id rows ≡ rows
unfolding delete_row
delete_row_absent x [] h = refl
delete_row_absent x (y ∷ ys) (f, h) = ground (arith, f.distinct, delete_row_absent x ys h)

module _ (P : PendingMessage → Type 0) (task : String) where
  first-All :
      (rows : List PendingMessage) (r : PendingMessage) (rest : List PendingMessage)
      → All P rows
      → of_task task rows ≡ r ∷ rest
      → P r
  first-All rows r rest h e = (subst (All P) e (All-filter P (λ x. str_eq x.task_id task) rows h)).0

-- The rows of each task after the oldest row of one task is deleted.
of_task-delete_row :
    (task i : String) (rows : List PendingMessage) (r : PendingMessage) (rest : List PendingMessage)
    → IsOrdered rows
    → of_task task rows ≡ r ∷ rest
    → of_task i (delete_row r.id rows) ≡ (if str_eq task i then rest else of_task i rows)
unfolding delete_row
of_task-delete_row task i [] r rest h e = cc
of_task-delete_row task i (x ∷ xs) r rest (h, hs) e = elim (Bool-cases (str_eq x.task_id task)) [
  | inl own ↦ ground (arith, delete_row_absent x xs h, eq_iff x.task_id task, eq_iff task i)
  | inr other ↦
      let e' : of_task task xs ≡ r ∷ rest = ground arith in
      let f = first-All (Follows x) task xs r rest h e' in
      ground (
        arith,
        f.distinct,
        of_task-delete_row task i xs r rest hs e',
        eq_iff x.task_id task,
        eq_iff task i,
        eq_iff x.task_id i,
      )
]

delete_row-IsOrdered :
    (id : ℕ) (rows : List PendingMessage) → IsOrdered rows → IsOrdered (delete_row id rows)
unfolding delete_row
delete_row-IsOrdered id rows h = filter-IsOrdered (λ r. not (r.id == id)) rows h

-- A parked message goes to the end of its task's queue, and no other task's queue changes; the
-- rows stay ordered where the new row has a new id and the clock did not go back.
pub add_pending_message_appends :
    (id now : ℕ) (task : String) (generation : ℕ) (content i : String) (rows : List PendingMessage)
    → IsOrdered rows
    → All (λ x. (x.created_at ≤ now) × (id ≢ x.id)) rows
    → (list_pending_messages i (add_pending_message id now task generation content rows).0 ≡ (
        if str_eq task i
        then list_pending_messages i rows
          ++ ((add_pending_message id now task generation content rows).1 ∷ [])
        else list_pending_messages i rows))
      × IsOrdered (add_pending_message id now task generation content rows).0
unfolding add_pending_message
add_pending_message_appends id now task generation content i rows h f =
    let row : PendingMessage = record {
      id = id;
      task_id = task;
      generation = generation;
      content = content;
      created_at = now;
    } in
    let ordered = append-IsOrdered rows row (follows_all rows f) h in
    (
      rw (list_pending_messages-of_task i (rows ++ (row ∷ [])) ordered)
          (rw (list_pending_messages-of_task i rows h) (of_task-append i rows row)),
      ordered,
    )
  where
    follows_all :
        (xs : List PendingMessage)
        → All (λ x. (x.created_at ≤ now) × (id ≢ x.id)) xs
        → All
            (λ x. Follows x (record {
              id = id;
              task_id = task;
              generation = generation;
              content = content;
              created_at = now;
            }))
            xs
    follows_all [] g = tt
    follows_all (x ∷ xs) (g, gs) = (record { later = g.0; distinct = g.1 }, follows_all xs gs)

abbrev pub rest_of : List PendingMessage → List PendingMessage
rest_of [] = []
rest_of (x ∷ xs) = xs

-- A pop takes the oldest message of its task's queue, or nothing from an empty one; the rest of the
-- queue, every other task's queue and the order of the rows stay.
pub pop_pending_message_takes_oldest :
    (task i : String) (rows : List PendingMessage)
    → IsOrdered rows
    → ((pop_pending_message task rows).1 ≡ first_row (list_pending_messages task rows))
      × (list_pending_messages i (pop_pending_message task rows).0 ≡ (
          if str_eq task i
          then rest_of (list_pending_messages task rows)
          else list_pending_messages i rows))
      × IsOrdered (pop_pending_message task rows).0
unfolding pop_pending_message
pop_pending_message_takes_oldest task i rows h = popped (list_pending_messages task rows) refl
  where
    popped :
        (q : List PendingMessage)
        → list_pending_messages task rows ≡ q
        → ((pop_pending_message task rows).1 ≡ first_row (list_pending_messages task rows))
          × (list_pending_messages i (pop_pending_message task rows).0 ≡ (
              if str_eq task i
              then rest_of (list_pending_messages task rows)
              else list_pending_messages i rows))
          × IsOrdered (pop_pending_message task rows).0
    popped [] e = rw (e, pop_pending_message) (refl, ground (arith, eq_iff task i), h)
    popped (r ∷ rest) e =
        let kept = delete_row-IsOrdered r.id rows h in
        rw (e, pop_pending_message)
          (
            refl,
            ground (
              arith,
              list_pending_messages-of_task i (delete_row r.id rows) kept,
              list_pending_messages-of_task i rows h,
              of_task-delete_row task i rows r rest h
                  (sym (list_pending_messages-of_task task rows h) ∙ e),
            ),
            kept,
          )

of_task-cleared :
    (task i : String) (rows : List PendingMessage)
    → of_task i (clear_pending_messages task rows).0
      ≡ (if str_eq task i then [] else of_task i rows)
unfolding clear_pending_messages
of_task-cleared task i [] = ground arith
of_task-cleared task i (x ∷ xs) =
    ground
      (arith, of_task-cleared task i xs, eq_iff x.task_id task, eq_iff task i, eq_iff x.task_id i)

-- A clear returns the task's queue as it was, leaves it empty, and leaves every other task's queue.
pub clear_pending_messages_empties :
    (task i : String) (rows : List PendingMessage)
    → ((clear_pending_messages task rows).1 ≡ list_pending_messages task rows)
      × (list_pending_messages i (clear_pending_messages task rows).0
          ≡ (if str_eq task i then [] else list_pending_messages i rows))
unfolding list_pending_messages
clear_pending_messages_empties task i rows =
    (unfold clear_pending_messages in refl, rw (of_task-cleared task i rows) (ground arith))
