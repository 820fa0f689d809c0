-- ===== src/RepoLock.antt =====
-- lib/repoLock.ts: the per-repository mutex. `withRepoLock` chains `fn` behind the tail in the table
-- at once; `fn` runs in a later microtask, its outcome settles the tail either way, and the tail's own
-- callback, later still, drops the entry where the tail is still the last.
pub mod Exclusion
use operator_oss.Base.{
  ℕ, Bool, true, false, Option, none, some, List, [], ◌∷◌, String, if◌then◌else◌, is_it, length,
}
use operator_oss.Maps.{get, set, delete, has}
use operator_oss.Locks.{Call, waiting, call_at, wake_at, release_at}

pub record Locks : Type 0 where
  pub calls : List Call  -- newest first
  pub tails : List (String × ℕ)

abbrev pub empty_locks : Locks
empty_locks = record { calls = []; tails = [] }

unfoldable pub enter : String → Locks → Locks
enter key s = record {
  calls = waiting key (get key s.tails) ∷ s.calls;
  tails = set key (length s.calls) s.tails;
}

unfoldable pub wake : ℕ → Locks → Locks
wake n s = record s { calls = wake_at n s.calls }

-- `fn`'s promise is fulfilled or rejected.
unfoldable pub settle : ℕ → Locks → Locks
settle n s = record s { calls = release_at n s.calls }

-- The callback on the tail, which runs only after the tail has settled.
unfoldable pub clean : ℕ → Locks → Locks
clean n s = elim (call_at n s.calls) [
  | none ↦ s
  | some c ↦
      if c.released
      then (if is_it (get c.key s.tails) n then record s { tails = delete c.key s.tails } else s)
      else s
]

pub data Event : Type 0 where
  enters : String → Event
  wakes : ℕ → Event
  settles : ℕ → Event
  cleans : ℕ → Event

unfoldable pub step : Event → Locks → Locks
unfolding enter wake settle clean
step (enters key) s = enter key s
step (wakes n) s = wake n s
step (settles n) s = settle n s
step (cleans n) s = clean n s

unfoldable pub run : List Event → Locks → Locks
run [] s = s
run (e ∷ es) s = run es (step e s)
