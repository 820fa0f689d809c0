-- ===== src/Pending/Order.antt =====
-- lib/store.ts: the invariant of pending_messages. Rows are added by one process with a clock that
-- does not go back, so they stand by age, and their ids are distinct.
use operator_oss.Base.{
  ◌≤◌, ◌≡◌, ◌≢◌, refl, inl, inr, Bool, List, [], ◌∷◌, ◌++◌, String, str_eq, arith, filter, All,
  All-append, All-filter, Bool-cases,
}
use operator_oss.Pending.{PendingMessage, insert_by_age, order_by_age, list_pending_messages}

-- `y` was added after `x`.
pub record Follows (x y : PendingMessage) : Type 0 where
  pub later : x.created_at ≤ y.created_at
  pub distinct : y.id ≢ x.id

abbrev pub IsOrdered : List PendingMessage → Type 0
IsOrdered [] = Unit
IsOrdered (x ∷ xs) = All (Follows x) xs × IsOrdered xs

pub filter-IsOrdered :
    (keep : PendingMessage → Bool) (rows : List PendingMessage)
    → IsOrdered rows
    → IsOrdered (filter keep rows)
filter-IsOrdered keep [] h = tt
filter-IsOrdered keep (x ∷ xs) (h, hs) = elim (Bool-cases (keep x)) [
  | inl e ↦ rw e (All-filter (Follows x) keep xs h, filter-IsOrdered keep xs hs)
  | inr e ↦ rw e (filter-IsOrdered keep xs hs)
]

insert_by_age-first :
    (x : PendingMessage) (xs : List PendingMessage)
    → All (Follows x) xs
    → insert_by_age x xs ≡ x ∷ xs
unfolding insert_by_age
insert_by_age-first x [] h = refl
insert_by_age-first x (y ∷ ys) (f, h) = ground (arith, f.later)

order_by_age-IsOrdered : (rows : List PendingMessage) → IsOrdered rows → order_by_age rows ≡ rows
unfolding order_by_age
order_by_age-IsOrdered [] h = refl
order_by_age-IsOrdered (x ∷ xs) (h, hs) =
    rw (order_by_age-IsOrdered xs hs) (insert_by_age-first x xs h)

abbrev pub of_task : String → List PendingMessage → List PendingMessage
of_task task rows = filter (λ r. str_eq r.task_id task) rows

pub list_pending_messages-of_task :
    (task : String) (rows : List PendingMessage)
    → IsOrdered rows
    → list_pending_messages task rows ≡ of_task task rows
unfolding list_pending_messages
list_pending_messages-of_task task rows h =
    order_by_age-IsOrdered (of_task task rows)
      (filter-IsOrdered (λ r. str_eq r.task_id task) rows h)

pub append-IsOrdered :
    (rows : List PendingMessage) (r : PendingMessage)
    → All (λ x. Follows x r) rows
    → IsOrdered rows
    → IsOrdered (rows ++ (r ∷ []))
append-IsOrdered [] r f h = (tt, tt)
append-IsOrdered (x ∷ xs) r (g, gs) (h, hs) =
    (All-append (Follows x) xs h g, append-IsOrdered xs r gs hs)
