-- ===== src/Locks.antt =====
-- What lib/taskLock.ts and lib/repoLock.ts share: callers of one lock chained by promises. A call is
-- one `withTaskLock` or `withRepoLock`; its number is the count of calls before it. Lists of calls
-- have the newest first, so a call's number is the length of the list behind it.
pub mod Chain
pub mod Steps
use operator_oss.Base.{
  ℕ, suc, ◌+◌, Bool, true, false, not, ◌&&◌, ◌||◌, Option, none, some, List, [], ◌∷◌, String,
  str_eq, ◌==◌, if◌then◌else◌, is_some, is_it, length,
}

pub record Call : Type 0 where
  pub key : String  -- the task id or the repo path
  pub prev : Option ℕ  -- whose tail it awaits; `none` is `Promise.resolve()`
  pub started : Bool  -- `fn` was called
  pub released : Bool  -- `fn` returned or threw

abbrev pub waiting : String → Option ℕ → Call
waiting key prev = record { key = key; prev = prev; started = false; released = false }

-- Whether a tail has settled: its call is over, and so is the tail before it.
unfoldable pub is_settled : List Call → Option ℕ → Bool
is_settled [] p = not (is_some p)
is_settled (c ∷ cs) p =
    is_settled cs (if is_it p (length cs) then c.prev else p)
    && (if is_it p (length cs) then c.released else true)

unfoldable pub call_at : ℕ → List Call → Option Call
call_at n [] = none
call_at n (c ∷ cs) = if n == length cs then some c else call_at n cs

-- The microtask of call `n`: it calls `fn` once the tail that it awaits has settled.
unfoldable pub wake_at : ℕ → List Call → List Call
wake_at n [] = []
wake_at n (c ∷ cs) =
    if n == length cs
    then record c { started = c.started || is_settled cs c.prev } ∷ cs
    else c ∷ wake_at n cs

-- `fn` of call `n` returns or throws.
unfoldable pub release_at : ℕ → List Call → List Call
release_at n [] = []
release_at n (c ∷ cs) =
    if n == length cs
    then record c { released = c.released || c.started } ∷ cs
    else c ∷ release_at n cs

-- Every call for the key is over.
unfoldable pub is_quiet : String → List Call → Bool
is_quiet k [] = true
is_quiet k (c ∷ cs) = (not (str_eq c.key k) || c.released) && is_quiet k cs

-- The number of calls for the key whose `fn` runs.
unfoldable pub running : String → List Call → ℕ
running k [] = 0
running k (c ∷ cs) =
    (if str_eq c.key k && (c.started && not c.released) then 1 else 0) + running k cs

-- The newest call for the key, and whether it is not over.
unfoldable pub latest : String → List Call → Option ℕ
latest k [] = none
latest k (c ∷ cs) = if str_eq c.key k then some (length cs) else latest k cs

unfoldable pub is_open : String → List Call → Bool
is_open k [] = false
is_open k (c ∷ cs) = if str_eq c.key k then not c.released else is_open k cs
