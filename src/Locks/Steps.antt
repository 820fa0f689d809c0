-- ===== src/Locks/Steps.antt =====
-- What a wake-up and a release do to a chain of calls.
use operator_oss.Base.{
  ℕ, ◌≤◌, ◌<◌, ◌≡◌, refl, inl, inr, true, false, Option, some, List, [], ◌∷◌, ◌++◌, String, eq_iff,
  arith, length, ◌==◌, if◌then◌else◌, is_it, Bool-cases, Option-cases,
}
use operator_oss.Locks.{Call, call_at, wake_at, release_at, is_quiet, running, latest, is_open}
use operator_oss.Locks.Chain.{Link, Chained, latest-lt, is_settled-is_quiet}

pub length-wake_at : (n : ℕ) (cs : List Call) → length (wake_at n cs) ≡ length cs
unfolding wake_at
length-wake_at n [] = refl
length-wake_at n (c ∷ cs) = ground (arith, length-wake_at n cs)

pub length-release_at : (n : ℕ) (cs : List Call) → length (release_at n cs) ≡ length cs
unfolding release_at
length-release_at n [] = refl
length-release_at n (c ∷ cs) = ground (arith, length-release_at n cs)

pub latest-wake_at : (n : ℕ) (k : String) (cs : List Call) → latest k (wake_at n cs) ≡ latest k cs
unfolding wake_at latest
latest-wake_at n k [] = refl
latest-wake_at n k (c ∷ cs) = ground (arith, length-wake_at n cs, latest-wake_at n k cs)

pub latest-release_at :
    (n : ℕ) (k : String) (cs : List Call) → latest k (release_at n cs) ≡ latest k cs
unfolding release_at latest
latest-release_at n k [] = refl
latest-release_at n k (c ∷ cs) = ground (arith, length-release_at n cs, latest-release_at n k cs)

pub is_quiet-wake_at :
    (n : ℕ) (k : String) (cs : List Call) → is_quiet k (wake_at n cs) ≡ is_quiet k cs
unfolding wake_at is_quiet
is_quiet-wake_at n k [] = refl
is_quiet-wake_at n k (c ∷ cs) = ground (arith, is_quiet-wake_at n k cs)

pub is_quiet-release_at :
    (n : ℕ) (k : String) (cs : List Call)
    → is_quiet k cs ≡ true
    → is_quiet k (release_at n cs) ≡ true
unfolding release_at is_quiet
is_quiet-release_at n k [] h = refl
is_quiet-release_at n k (c ∷ cs) h = ground (arith, is_quiet-release_at n k cs)

pub is_open-wake_at :
    (n : ℕ) (k : String) (cs : List Call) → is_open k (wake_at n cs) ≡ is_open k cs
unfolding wake_at is_open
is_open-wake_at n k [] = refl
is_open-wake_at n k (c ∷ cs) = ground (arith, is_open-wake_at n k cs)

pub call_at-lt : (n : ℕ) (cs : List Call) (c : Call) → call_at n cs ≡ some c → n < length cs
unfolding call_at
call_at-lt n [] c e = ground arith
call_at-lt n (d ∷ cs) c e = ground (arith, call_at-lt n cs c)

-- The newest call for a key closes by its own release alone.
pub is_open-release_at :
    (n : ℕ) (k : String) (cs : List Call) (c : Call)
    → call_at n cs ≡ some c
    → c.started ≡ true
    → is_open k (release_at n cs) ≡ (if is_it (latest k cs) n then false else is_open k cs)
unfolding release_at is_open call_at latest
is_open-release_at n k [] c e s = ground arith
is_open-release_at n k (d ∷ cs) c e s = elim (Option-cases (latest k cs)) [
  | inl l ↦ ground (arith, call_at-lt n cs c, is_open-release_at n k cs c)
  | inr (p, l) ↦ ground (arith, call_at-lt n cs c, latest-lt k cs p, is_open-release_at n k cs c)
]

-- The newest call for a key has that key.
pub latest-key :
    (n : ℕ) (k : String) (cs : List Call) (c : Call)
    → call_at n cs ≡ some c
    → latest k cs ≡ some n
    → c.key ≡ k
unfolding call_at latest
latest-key n k [] c e l = ground arith
latest-key n k (d ∷ cs) c e l =
    ground (arith, eq_iff d.key k, latest-lt k cs n, call_at-lt n cs c, latest-key n k cs c)

Link-wake_at :
    (n : ℕ) (p : Option ℕ) (k : String) (cs : List Call) → Link p k cs → Link p k (wake_at n cs)
Link-wake_at n p k cs l = ground (arith, latest-wake_at n k cs, is_quiet-wake_at n k cs)

pub Link-release_at :
    (n : ℕ) (p : Option ℕ) (k : String) (cs : List Call) → Link p k cs → Link p k (release_at n cs)
Link-release_at n p k cs l = ground (arith, latest-release_at n k cs, is_quiet-release_at n k cs)

pub Chained-wake_at : (n : ℕ) (cs : List Call) → Chained cs → Chained (wake_at n cs)
unfolding wake_at
Chained-wake_at n [] h = tt
Chained-wake_at n (c ∷ cs) h = elim (Bool-cases (n == length cs)) [
  | inl e ↦ rw e (
    h.0,
    λ s. ground (arith, h.1, is_settled-is_quiet c.key cs c.prev h.3 h.0),
    λ r. ground (arith, h.2),
    h.3,
  )
  | inr e ↦ rw e (
    Link-wake_at n c.prev c.key cs h.0,
    λ s. ground (arith, h.1, is_quiet-wake_at n c.key cs),
    h.2,
    Chained-wake_at n cs h.3,
  )
]

pub Chained-release_at : (n : ℕ) (cs : List Call) → Chained cs → Chained (release_at n cs)
unfolding release_at
Chained-release_at n [] h = tt
Chained-release_at n (c ∷ cs) h = elim (Bool-cases (n == length cs)) [
  | inl e ↦ rw e (h.0, h.1, λ r. ground (arith, h.2), h.3)
  | inr e ↦ rw e (
    Link-release_at n c.prev c.key cs h.0,
    λ s. ground (arith, h.1, is_quiet-release_at n c.key cs),
    h.2,
    Chained-release_at n cs h.3,
  )
]

running_of_quiet : (k : String) (cs : List Call) → is_quiet k cs ≡ true → running k cs ≡ 0
unfolding is_quiet running
running_of_quiet k [] h = refl
running_of_quiet k (c ∷ cs) h = ground (arith, running_of_quiet k cs)

-- Mutual exclusion.
pub running-le-one : (k : String) (cs : List Call) → Chained cs → running k cs ≤ 1
unfolding running
running-le-one k [] h = omega arith
running-le-one k (c ∷ cs) h =
    ground (arith, eq_iff c.key k, running-le-one k cs h.3, running_of_quiet k cs, h.1)

-- A call that has started comes after every older call for its key.
pub started-is_quiet :
    (newer older : List Call) (c : Call)
    → Chained (newer ++ (c ∷ older))
    → c.started ≡ true
    → is_quiet c.key older ≡ true
started-is_quiet [] older c h s = h.1 s
started-is_quiet (d ∷ newer) older c h s = started-is_quiet newer older c h.3 s

-- While a call for the key is left, the oldest of them, with none left for the key before it, runs or
-- can start.
pub oldest_ready :
    (k : String) (cs : List Call)
    → Chained cs
    → is_quiet k cs ≡ false
    → (n : ℕ) × (c : Call) × (newer : List Call) × (older : List Call) × (cs ≡ newer ++ (c ∷ older))
      × (is_quiet k older ≡ true)
      × (call_at n cs ≡ some c)
      × (c.key ≡ k)
      × (c.released ≡ false)
      × (call_at n (wake_at n cs) ≡ some (record c { started = true }))
unfolding is_quiet call_at wake_at
oldest_ready k [] h q = cc
oldest_ready k (c ∷ cs) h q = elim (Bool-cases (is_quiet k cs)) [
  | inl now ↦ (
    length cs,
    c,
    [],
    cs,
    refl,
    now,
    ground arith,
    ground (arith, eq_iff c.key k),
    ground arith,
    ground (arith, eq_iff c.key k, is_settled-is_quiet c.key cs c.prev h.3 h.0),
  )
  | inr older ↦
      let (n, d, newer, before, parts, quiet, at, key, left, woken) = oldest_ready k cs h.3 older in
      (
        n,
        d,
        c ∷ newer,
        before,
        ground (arith, parts),
        quiet,
        ground (arith, call_at-lt n cs d),
        key,
        left,
        ground (arith, call_at-lt n cs d, length-wake_at n cs),
      )
]
