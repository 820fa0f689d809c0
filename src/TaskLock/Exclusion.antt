-- ===== src/TaskLock/Exclusion.antt =====
-- lib/taskLock.ts: exclusion, order, the answer of isTaskLocked, and progress.
use operator_oss.Base.{ℕ, ◌≤◌, ◌≡◌, true, false, not, some, List, ◌∷◌, ◌++◌, String, arith, subst}
use operator_oss.Locks.{Call, call_at, is_quiet, running}
use operator_oss.Locks.Chain.{Chained, is_open-is_quiet, is_quiet_of_none}
use operator_oss.Locks.Steps.{running-le-one, started-is_quiet, oldest_ready}
use operator_oss.TaskLock.{Event, run, wake, is_task_locked, empty_locks}
use operator_oss.TaskLock.Invariant.{run-IsValid}

-- Under any interleaving at most one function runs under a task's lock.
pub run-running : (es : List Event) (id : String) → running id (run es empty_locks).calls ≤ 1
run-running es id = running-le-one id _ (run-IsValid es).chained

-- Callers are served in the order of arrival: once a call has started, every earlier call for its
-- task is over.
pub run-fifo :
    (es : List Event) (newer older : List Call) (c : Call)
    → (run es empty_locks).calls ≡ newer ++ (c ∷ older)
    → c.started ≡ true
    → is_quiet c.key older ≡ true
run-fifo es newer older c e s =
    started-is_quiet newer older c (subst Chained e (run-IsValid es).chained) s

-- isTaskLocked answers true exactly while some call for the task, running or queued, is not over; in
-- particular the table keeps no entry of an idle task.
pub is_task_locked_iff :
    (es : List Event) (id : String)
    → is_task_locked id (run es empty_locks) ≡ not (is_quiet id (run es empty_locks).calls)
unfolding is_task_locked
is_task_locked_iff es id =
    let v = run-IsValid es in
    let cs = (run es empty_locks).calls in
    ground (arith, v.table id, is_open-is_quiet id cs v.chained, is_quiet_of_none id cs)

-- No deadlock: while calls for a task are left, the oldest of them, with every earlier call for the
-- task over, runs, or its next wake-up starts its function.
pub run-ready :
    (es : List Event) (id : String)
    → is_quiet id (run es empty_locks).calls ≡ false
    → (n : ℕ) × (c : Call) × (newer : List Call) × (older : List Call) × ((run es empty_locks).calls
        ≡ newer ++ (c ∷ older))
      × (is_quiet id older ≡ true)
      × (call_at n (run es empty_locks).calls ≡ some c)
      × (c.key ≡ id)
      × (c.released ≡ false)
      × (call_at n (wake n (run es empty_locks)).calls ≡ some (record c { started = true }))
unfolding wake
run-ready es id h = oldest_ready id _ (run-IsValid es).chained h
