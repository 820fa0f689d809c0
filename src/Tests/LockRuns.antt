-- ===== src/Tests/LockRuns.antt =====
-- lib/taskLock.ts and lib/repoLock.ts on concrete interleavings.
use operator_oss.Base.{ℕ, ◌≤◌, ◌≡◌, ◌⊎◌, refl, true, false, none, some, List, [], ◌∷◌, ◌++◌}
use operator_oss.Maps.{get, set, delete}
use operator_oss.Locks.{Call, is_settled, call_at, wake_at, release_at, is_quiet, running}
use operator_oss.TaskLock
use operator_oss.TaskLock.Exclusion.{run-running, run-fifo, run-ready}
use operator_oss.RepoLock
use operator_oss.RepoLock.Exclusion.{run-exclusive}

abbrev two_callers : List TaskLock.Event
two_callers =
    TaskLock.enters "a"
    ∷ TaskLock.enters "a"
    ∷ TaskLock.wakes 1
    ∷ TaskLock.wakes 0
    ∷ TaskLock.finishes 0
    ∷ TaskLock.wakes 1
    ∷ []

abbrev first : Call
first = record { key = "a"; prev = none; started = true; released = true }

abbrev second : Call
second = record { key = "a"; prev = some 0; started = true; released = false }

two_callers_calls : (TaskLock.run two_callers TaskLock.empty_locks).calls ≡ second ∷ first ∷ []
unfolding TaskLock.run TaskLock.step get set delete call_at wake_at release_at is_settled
two_callers_calls = refl

run-running_example : running "a" (TaskLock.run two_callers TaskLock.empty_locks).calls ≤ 1
run-running_example = run-running two_callers "a"

run-fifo_example : is_quiet "a" (first ∷ []) ≡ true
run-fifo_example = run-fifo two_callers [] (first ∷ []) second two_callers_calls refl

run-ready_example :
    (n : ℕ) × (c : Call) × (newer : List Call) × (older : List Call) × ((TaskLock.run two_callers
        TaskLock.empty_locks).calls
      ≡ newer ++ (c ∷ older))
    × (is_quiet "a" older ≡ true)
    × (call_at n (TaskLock.run two_callers TaskLock.empty_locks).calls ≡ some c)
    × (c.key ≡ "a")
    × (c.released ≡ false)
    × (call_at n (TaskLock.wake n (TaskLock.run two_callers TaskLock.empty_locks)).calls
        ≡ some (record c { started = true }))
unfolding TaskLock.run TaskLock.step get set delete call_at wake_at release_at is_settled is_quiet
run-ready_example = run-ready two_callers "a" refl

abbrev two_sections : List RepoLock.Event
two_sections =
    RepoLock.enters "r"
    ∷ RepoLock.wakes 0
    ∷ RepoLock.enters "r"
    ∷ RepoLock.settles 0
    ∷ RepoLock.wakes 1
    ∷ []

abbrev repo_first : Call
repo_first = record { key = "r"; prev = none; started = true; released = true }

abbrev repo_second : Call
repo_second = record { key = "r"; prev = some 0; started = true; released = false }

two_sections_calls :
    (RepoLock.run two_sections RepoLock.empty_locks).calls ≡ repo_second ∷ repo_first ∷ []
unfolding RepoLock.run RepoLock.step get set call_at wake_at release_at is_settled
two_sections_calls = refl

run-exclusive_example :
    (running "r" (RepoLock.run two_sections RepoLock.empty_locks).calls ≤ 1)
    × ((is_quiet "r" (RepoLock.run two_sections RepoLock.empty_locks).calls ≡ true)
        ⊎ ((n : ℕ) × (c : Call) × (newer : List Call) × (older : List Call) × ((RepoLock.run
                two_sections RepoLock.empty_locks).calls
              ≡ newer ++ (c ∷ older))
            × (is_quiet "r" older ≡ true)
            × (call_at n (RepoLock.run two_sections RepoLock.empty_locks).calls ≡ some c)
            × (c.key ≡ "r")
            × (c.released ≡ false)
            × (call_at n (RepoLock.wake n (RepoLock.run two_sections RepoLock.empty_locks)).calls
                ≡ some (record c { started = true }))))
run-exclusive_example = run-exclusive two_sections "r"
