-- ===== src/Tests/QueueRuns.antt =====
-- The parked messages on concrete rows.
use operator_oss.Base.{ℕ, ◌≡◌, refl, some, List, [], ◌∷◌, String, arith}
use operator_oss.Pending.{PendingMessage, pop_pending_message}
use operator_oss.Pending.Order.{IsOrdered}

abbrev row : ℕ → String → ℕ → PendingMessage
row id task at = record {
  id = id;
  task_id = task;
  generation = 1;
  content = "go on";
  created_at = at;
}

abbrev rows : List PendingMessage
rows = row 0 "a" 10 ∷ row 1 "b" 10 ∷ row 2 "a" 20 ∷ []

rows-IsOrdered : IsOrdered rows
rows-IsOrdered = omega arith

popped : (pop_pending_message "a" rows).1 ≡ some (row 0 "a" 10)
unfolding pop_pending_message
popped = refl
