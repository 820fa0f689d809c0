-- ===== src/TaskLock/Invariant.antt =====
-- lib/taskLock.ts: the table holds the newest call of each task that has one left, and no other entry.
use operator_oss.Base.{
  ℕ, ◌≡◌, refl, inl, inr, true, none, some, List, [], ◌∷◌, String, str_eq, eq_iff, arith,
  if◌then◌else◌, is_it, length, Option-cases, Bool-cases,
}
use operator_oss.Maps.{get, get-set, get-delete}
use operator_oss.Locks.{Call, call_at, release_at, latest, is_open}
use operator_oss.Locks.Chain.{Link, Chained, is_open-is_quiet}
use operator_oss.Locks.Steps.{
  latest-wake_at, latest-release_at, is_open-wake_at, is_open-release_at, latest-key,
  Chained-wake_at, Chained-release_at,
}
use operator_oss.TaskLock.{
  Locks, Event, enters, wakes, finishes, enter, wake, finish, step, run, empty_locks,
}

pub record IsValid (s : Locks) : Type 0 where
  pub chained : Chained s.calls
  pub table :
      (id : String) → get id s.tails ≡ (if is_open id s.calls then latest id s.calls else none)

entry_Link : (s : Locks) (id : String) → IsValid s → Link (get id s.tails) id s.calls
entry_Link s id v = ground (arith, v.table id, is_open-is_quiet id s.calls v.chained)

enter-IsValid : (id : String) (s : Locks) → IsValid s → IsValid (enter id s)
unfolding enter is_open latest
enter-IsValid id s v = record {
  chained = (entry_Link s id v, λ h. cc, λ h. cc, v.chained);
  table = λ i. ground (arith, get-set id i (length s.calls) s.tails, v.table i, eq_iff id i);
}

wake-IsValid : (n : ℕ) (s : Locks) → IsValid s → IsValid (wake n s)
unfolding wake
wake-IsValid n s v = record {
  chained = Chained-wake_at n s.calls v.chained;
  table = λ i. ground (arith, v.table i, is_open-wake_at n i s.calls, latest-wake_at n i s.calls);
}

release-IsValid :
    (n : ℕ) (s : Locks) (c : Call)
    → call_at n s.calls ≡ some c
    → c.started ≡ true
    → IsValid s
    → (i : String)
    → (if str_eq c.key i
        then (if is_it (get c.key s.tails) n then none else get i s.tails)
        else get i s.tails)
      ≡ (if is_open i (release_at n s.calls) then latest i (release_at n s.calls) else none)
release-IsValid n s c at started v i = ground (
  arith,
  v.table i,
  v.table c.key,
  is_open-release_at n i s.calls c at started,
  latest-release_at n i s.calls,
  latest-key n i s.calls c at,
  eq_iff c.key i,
)

finish-IsValid : (n : ℕ) (s : Locks) → IsValid s → IsValid (finish n s)
unfolding finish
finish-IsValid n s v = elim (Option-cases (call_at n s.calls)) [
  | inl e ↦ rw (e, finish) v
  | inr (c, e) ↦ elim (Bool-cases c.started) [
    | inr idle ↦ rw (e, idle, finish) v
    | inl started ↦ elim (Bool-cases c.released) [
      | inl over ↦ rw (e, started, over, finish) v
      | inr left ↦
          rw (e, started, left, finish)
            (record {
              chained = Chained-release_at n s.calls v.chained;
              table = λ i.
                  ground (arith, release-IsValid n s c e started v i, get-delete c.key i s.tails);
            })
    ]
  ]
]

pub step-IsValid : (e : Event) (s : Locks) → IsValid s → IsValid (step e s)
unfolding step
step-IsValid (enters id) s v = enter-IsValid id s v
step-IsValid (wakes n) s v = wake-IsValid n s v
step-IsValid (finishes n) s v = finish-IsValid n s v

run_from-IsValid : (es : List Event) (s : Locks) → IsValid s → IsValid (run es s)
unfolding run
run_from-IsValid [] s v = v
run_from-IsValid (e ∷ es) s v = run_from-IsValid es (step e s) (step-IsValid e s v)

-- After any interleaving of calls, wake-ups and ends.
pub run-IsValid : (es : List Event) → IsValid (run es empty_locks)
unfolding get is_open latest
run-IsValid es = run_from-IsValid es empty_locks (record { chained = tt; table = λ i. refl })
