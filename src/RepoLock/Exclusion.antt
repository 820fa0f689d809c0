-- ===== src/RepoLock/Exclusion.antt =====
-- lib/repoLock.ts: the invariant, exclusion and order, progress, and the emptying of the table.
use operator_oss.Base.{
  ℕ, ◌≤◌, ◌≡◌, refl, inl, inr, true, false, none, some, List, [], ◌∷◌, ◌++◌, String, eq_iff, arith,
  subst, Option-cases, Bool-cases, is_it, length, ◌==◌, if◌then◌else◌, ◌⊎◌,
}
use operator_oss.Maps.{get, get-set, get-delete}
use operator_oss.Locks.{Call, call_at, is_quiet, running, latest}
use operator_oss.Locks.Chain.{Link, Chained, latest-lt}
use operator_oss.Locks.Steps.{
  running-le-one, started-is_quiet, oldest_ready, latest-wake_at, latest-release_at,
  is_quiet-wake_at, is_quiet-release_at, Chained-wake_at, Chained-release_at, call_at-lt,
}
use operator_oss.RepoLock.{
  Locks, Event, enters, wakes, settles, cleans, enter, wake, clean, step, run, empty_locks,
}

pub record IsValid (s : Locks) : Type 0 where
  pub chained : Chained s.calls
  pub table : (key : String) → Link (get key s.tails) key s.calls

-- The newest call for a key, once over, leaves none.
is_quiet_of_latest :
    (n : ℕ) (k : String) (cs : List Call) (c : Call)
    → Chained cs
    → call_at n cs ≡ some c
    → latest k cs ≡ some n
    → c.released ≡ true
    → is_quiet k cs ≡ true
unfolding call_at latest is_quiet
is_quiet_of_latest n k [] c h at l r = cc
is_quiet_of_latest n k (d ∷ cs) c h at l r = ground (
  arith,
  eq_iff d.key k,
  latest-lt k cs n,
  call_at-lt n cs c,
  is_quiet_of_latest n k cs c h.3,
  h.1,
  h.2,
)

enter-Link :
    (key : String) (s : Locks) (k : String)
    → IsValid s
    → Link (get k (enter key s).tails) k (enter key s).calls
unfolding enter latest is_quiet
enter-Link key s k v = elim (v.table k) [
  | inl e ↦ ground (arith, get-set key k (length s.calls) s.tails, eq_iff key k)
  | inr (e, q) ↦ ground (arith, get-set key k (length s.calls) s.tails, eq_iff key k)
]

clean-IsValid : (n : ℕ) (s : Locks) → IsValid s → IsValid (clean n s)
unfolding clean
clean-IsValid n s v = elim (Option-cases (call_at n s.calls)) [
  | inl e ↦ rw (e, clean) v
  | inr (c, e) ↦ elim (Bool-cases c.released) [
    | inr left ↦ rw (e, left, clean) v
    | inl over ↦ elim (Bool-cases (is_it (get c.key s.tails) n)) [
      | inr newer ↦ rw (e, over, newer, clean) v
      | inl last ↦
          rw (e, over, last, clean)
            (record {
              chained = v.chained;
              table = λ k. ground (
                arith,
                v.table k,
                v.table c.key,
                get-delete c.key k s.tails,
                eq_iff c.key k,
                is_quiet_of_latest n k s.calls c v.chained e,
              );
            })
    ]
  ]
]

pub step-IsValid : (e : Event) (s : Locks) → IsValid s → IsValid (step e s)
unfolding step
step-IsValid (enters key) s v = record {
  chained = (v.table key, λ h. cc, λ h. cc, v.chained);
  table = λ k. enter-Link key s k v;
}
step-IsValid (wakes n) s v = record {
  chained = Chained-wake_at n s.calls v.chained;
  table = λ k. ground (arith, v.table k, latest-wake_at n k s.calls, is_quiet-wake_at n k s.calls);
}
step-IsValid (settles n) s v = record {
  chained = Chained-release_at n s.calls v.chained;
  table = λ k.
      ground (arith, v.table k, latest-release_at n k s.calls, is_quiet-release_at n k s.calls);
}
step-IsValid (cleans n) s v = clean-IsValid n s v

run_from-IsValid : (es : List Event) (s : Locks) → IsValid s → IsValid (run es s)
unfolding run
run_from-IsValid [] s v = v
run_from-IsValid (e ∷ es) s v = run_from-IsValid es (step e s) (step-IsValid e s v)

-- After any interleaving each entry of the table is the newest call for its key, and a key without
-- an entry has no call left.
pub run-IsValid : (es : List Event) → IsValid (run es empty_locks)
unfolding get latest
run-IsValid es = run_from-IsValid es empty_locks (record { chained = tt; table = λ k. inl refl })

-- At most one critical section of a repository runs, and while any is left, the oldest, with every
-- earlier one for the repository over, runs or starts at its next wake-up.
pub run-exclusive :
    (es : List Event) (key : String)
    → (running key (run es empty_locks).calls ≤ 1)
      × ((is_quiet key (run es empty_locks).calls ≡ true)
          ⊎ ((n : ℕ) × (c : Call) × (newer : List Call) × (older : List Call) × ((run es
                  empty_locks).calls
                ≡ newer ++ (c ∷ older))
              × (is_quiet key older ≡ true)
              × (call_at n (run es empty_locks).calls ≡ some c)
              × (c.key ≡ key)
              × (c.released ≡ false)
              × (call_at n (wake n (run es empty_locks)).calls
                  ≡ some (record c { started = true }))))
unfolding wake
run-exclusive es key = (
  running-le-one key _ (run-IsValid es).chained,
  elim (Bool-cases (is_quiet key (run es empty_locks).calls)) [
    | inl q ↦ inl q
    | inr q ↦ inr (oldest_ready key _ (run-IsValid es).chained q)
  ],
)

-- Critical sections of one repository run in the order of arrival.
pub run-ordered :
    (es : List Event) (newer older : List Call) (c : Call)
    → (run es empty_locks).calls ≡ newer ++ (c ∷ older)
    → c.started ≡ true
    → is_quiet c.key older ≡ true
run-ordered es newer older c e s =
    started-is_quiet newer older c (subst Chained e (run-IsValid es).chained) s

-- The callback of the last call's tail empties the key's entry, and a callback of an earlier call
-- leaves the entry of the later one alone.
pub clean-last :
    (es : List Event) (n m : ℕ) (c : Call)
    → call_at n (run es empty_locks).calls ≡ some c
    → c.released ≡ true
    → get c.key (run es empty_locks).tails ≡ some m
    → get c.key (clean n (run es empty_locks)).tails ≡ (if m == n then none else some m)
unfolding clean
clean-last es n m c at r e =
    ground (arith, get-delete c.key c.key (run es empty_locks).tails, eq_iff c.key c.key)
