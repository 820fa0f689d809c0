-- ===== src/Asks/Table.antt =====
-- lib/asks.ts: the two-level table of parked asks, by its look-ups.
use operator_oss.Base.{
  ◌≡◌, refl, true, ◌&&◌, none, some, List, [], ◌∷◌, String, str_eq, eq_iff, arith, if◌then◌else◌,
  length, ◌==◌, Option-cases, Bool-cases, inl, inr,
}
use operator_oss.Maps.{get, set, delete, get-set, get-delete}
use operator_oss.Asks.{Pending, by_ask, find_ask, remove_ask}

module _ {Q : Type 0} where
  get_of_empty :
      (k : String) (m : List (String × Pending Q)) → (length m == 0) ≡ true → get k m ≡ none
  unfolding get
  get_of_empty k [] h = refl
  get_of_empty k (e ∷ m) h = ground arith

  pub find_ask-set :
      (task ask i j : String) (p : Pending Q) (r : List (String × List (String × Pending Q)))
      → find_ask i j (set task (set ask p (by_ask task r)) r)
        ≡ (if str_eq task i && str_eq ask j then some p else find_ask i j r)
  find_ask-set task ask i j p r = ground (
    arith,
    get-set task i (set ask p (by_ask task r)) r,
    get-set ask j p (by_ask task r),
    eq_iff task i,
  )

  pub find_ask-remove_ask :
      (task ask i j : String) (r : List (String × List (String × Pending Q)))
      → find_ask i j (remove_ask task ask r)
        ≡ (if str_eq task i && str_eq ask j then none else find_ask i j r)
  unfolding remove_ask
  find_ask-remove_ask task ask i j r = elim (Option-cases (find_ask task ask r)) [
    | inl e ↦ rw (e, remove_ask) (ground (arith, eq_iff task i, eq_iff ask j))
    | inr (p, e) ↦ elim (Bool-cases (length (delete ask (by_ask task r)) == 0)) [
      | inl gone ↦
          rw (e, gone, remove_ask)
            (ground (
              arith,
              eq_iff task i,
              get-delete task i r,
              get-delete ask j (by_ask task r),
              get_of_empty j (delete ask (by_ask task r)) gone,
              get_of_empty j [] refl,
            ))
      | inr kept ↦
          rw (e, kept, remove_ask)
            (ground (
              arith,
              eq_iff task i,
              get-set task i (delete ask (by_ask task r)) r,
              get-delete ask j (by_ask task r),
            ))
    ]
  ]
