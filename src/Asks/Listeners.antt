-- ===== src/Asks/Listeners.antt =====
-- lib/asks.ts: the abort listeners of the parked asks.
use operator_oss.Base.{ℕ, ◌≤◌, ◌<◌, ◌≡◌, ◌⊎◌, some, List, [], ◌∷◌, String, arith, All}
use operator_oss.Asks.{Pending, Listener, find_ask}

module _ {Q : Type 0} where
  -- A listener belongs to the ask whose promise it rejects.
  pub record HeardBy (r : List (String × List (String × Pending Q))) (next : ℕ) (l : Listener)
      : Type 0 where
    pub made : l.promise < next
    pub own :
        (i j : String) (p : Pending Q)
        → find_ask i j r ≡ some p
        → p.promise ≡ l.promise
        → (l.task ≡ i) × (l.ask ≡ j)

  -- Listeners stay right while asks go and new asks get new promises.
  pub heard_mono :
      (r r' : List (String × List (String × Pending Q))) (next next' : ℕ) (ls : List Listener)
      → next ≤ next'
      → ((i j : String) (p : Pending Q)
          → find_ask i j r' ≡ some p
          → (find_ask i j r ≡ some p) ⊎ (p.promise ≡ next))
      → All (HeardBy r next) ls
      → All (HeardBy r' next') ls
  heard_mono r r' next next' [] le sub h = tt
  heard_mono r r' next next' (l ∷ ls) le sub (h, hs) = (
    record {
      made = omega (arith, h.made);
      own = λ i j p e same. ground (arith, sub i j p e, h.own i j p, h.made);
    },
    heard_mono r r' next next' ls le sub hs,
  )
