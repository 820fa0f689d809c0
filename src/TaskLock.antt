-- ===== src/TaskLock.antt =====
-- lib/taskLock.ts: the per-task lock. `withTaskLock` runs in three synchronous pieces, between which
-- anything else may run: `enter` up to `await prev`, the microtask that calls `fn`, and the `finally`
-- block, which is the same for a result and for an exception of `fn`.
pub mod Invariant
pub mod Exclusion
use operator_oss.Base.{
  ℕ, Bool, true, false, not, ◌&&◌, Option, none, some, List, [], ◌∷◌, String, if◌then◌else◌, is_it,
  length,
}
use operator_oss.Maps.{get, set, delete, has}
use operator_oss.Locks.{Call, waiting, call_at, wake_at, release_at}

pub record Locks : Type 0 where
  pub calls : List Call  -- newest first
  pub tails : List (String × ℕ)  -- the lock table: the last call for each task

abbrev pub empty_locks : Locks
empty_locks = record { calls = []; tails = [] }

unfoldable pub enter : String → Locks → Locks
enter id s = record {
  calls = waiting id (get id s.tails) ∷ s.calls;
  tails = set id (length s.calls) s.tails;
}

unfoldable pub wake : ℕ → Locks → Locks
wake n s = record s { calls = wake_at n s.calls }

abbrev drop_tail : ℕ → String → List (String × ℕ) → List (String × ℕ)
drop_tail n id tails = if is_it (get id tails) n then delete id tails else tails

unfoldable pub finish : ℕ → Locks → Locks
finish n s = elim (call_at n s.calls) [
  | none ↦ s
  | some c ↦
      if c.started && not c.released
      then record { calls = release_at n s.calls; tails = drop_tail n c.key s.tails }
      else s
]

unfoldable pub is_task_locked : String → Locks → Bool
is_task_locked id s = has id s.tails

pub data Event : Type 0 where
  enters : String → Event
  wakes : ℕ → Event
  finishes : ℕ → Event

unfoldable pub step : Event → Locks → Locks
unfolding enter wake finish
step (enters id) s = enter id s
step (wakes n) s = wake n s
step (finishes n) s = finish n s

unfoldable pub run : List Event → Locks → Locks
run [] s = s
run (e ∷ es) s = run es (step e s)
