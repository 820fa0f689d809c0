-- ===== src/Locks/Chain.antt =====
-- The invariant of a chain of calls, and what it gives: a settled tail means that every earlier call
-- for the key is over.
use operator_oss.Base.{
  ℕ, ◌<◌, ◌≡◌, refl, ◌⊎◌, inl, inr, true, false, not, Option, none, some, List, [], ◌∷◌, String,
  str_eq, eq_iff, arith, length, Option-cases,
}
use operator_oss.Locks.{Call, is_settled, is_quiet, latest, is_open}

-- `p` is the tail of the newest call for `k`, or there is none to wait for.
abbrev pub Link : Option ℕ → String → List Call → Type 0
Link p k cs = (p ≡ latest k cs) ⊎ ((p ≡ none) × (is_quiet k cs ≡ true))

abbrev pub Chained : List Call → Type 0
Chained [] = Unit
Chained (c ∷ cs) =
    Link c.prev c.key cs
    × (c.started ≡ true → is_quiet c.key cs ≡ true)
    × (c.released ≡ true → c.started ≡ true)
    × Chained cs

is_settled-none : (cs : List Call) → is_settled cs none ≡ true
unfolding is_settled
is_settled-none [] = refl
is_settled-none (c ∷ cs) = ground (arith, is_settled-none cs)

pub latest-lt : (k : String) (cs : List Call) (p : ℕ) → latest k cs ≡ some p → p < length cs
unfolding latest
latest-lt k [] p e = ground arith
latest-lt k (c ∷ cs) p e = ground (arith, latest-lt k cs p)

pub is_quiet_of_none : (k : String) (cs : List Call) → latest k cs ≡ none → is_quiet k cs ≡ true
unfolding latest is_quiet
is_quiet_of_none k [] e = refl
is_quiet_of_none k (c ∷ cs) e = ground (arith, is_quiet_of_none k cs)

-- Where the newest call is over, all are.
pub is_open-is_quiet :
    (k : String) (cs : List Call) → Chained cs → is_open k cs ≡ not (is_quiet k cs)
unfolding is_open is_quiet
is_open-is_quiet k [] h = refl
is_open-is_quiet k (c ∷ cs) h = ground (arith, eq_iff c.key k, is_open-is_quiet k cs h.3)

module _ (k : String) where
  settled_latest :
      (c : Call) (cs : List Call)
      → str_eq c.key k ≡ false
      → is_settled (c ∷ cs) (latest k cs) ≡ is_settled cs (latest k cs)
  unfolding is_settled
  settled_latest c cs h = elim (Option-cases (latest k cs)) [
    | inl e ↦ rw e (ground arith)
    | inr (p, e) ↦ ground (arith, latest-lt k cs p e)
  ]

pub is_quiet_of_settled :
    (k : String) (cs : List Call)
    → Chained cs
    → is_settled cs (latest k cs) ≡ true
    → is_quiet k cs ≡ true
unfolding is_settled latest is_quiet
is_quiet_of_settled k [] h e = refl
is_quiet_of_settled k (c ∷ cs) h e =
    ground (arith, eq_iff c.key k, is_quiet_of_settled k cs h.3, settled_latest k c cs, h.0)

pub is_settled_of_quiet :
    (k : String) (cs : List Call)
    → Chained cs
    → is_quiet k cs ≡ true
    → is_settled cs (latest k cs) ≡ true
unfolding is_settled latest is_quiet
is_settled_of_quiet k [] h e = refl
is_settled_of_quiet k (c ∷ cs) h e = ground (
  arith,
  eq_iff c.key k,
  is_settled_of_quiet k cs h.3,
  settled_latest k c cs,
  is_settled-none cs,
  h.0,
)

-- A caller may go on exactly when no call before it is left.
pub is_settled-is_quiet :
    (k : String) (cs : List Call) (p : Option ℕ)
    → Chained cs
    → Link p k cs
    → is_settled cs p ≡ is_quiet k cs
is_settled-is_quiet k cs p h (inr (e, q)) = rw (e, q) (is_settled-none cs)
is_settled-is_quiet k cs p h (inl e) =
    rw e (ground (arith, is_quiet_of_settled k cs h, is_settled_of_quiet k cs h))
