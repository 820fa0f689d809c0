-- ===== src/Deps/Search.antt =====
-- lib/store.ts: the search of setTaskDeps ends, and finds a way back to the task where there is one.
use operator_oss.Base.{
  ℕ, zero, suc, ◌+◌, ◌<◌, ◌≡◌, ◌≢◌, ◌⊎◌, refl, subst, inl, inr, true, false, List, [], ◌∷◌, String,
  str_eq, eq_iff, eq_refl, if◌then◌else◌, length, arith, Bool-cases, All,
}
use operator_oss.Sets.{member, add, member-add}
use operator_oss.Deps.{Edge, targets, adjacent, push_all, free, out_of_fuel, search}

-- The edges from tasks that the search has not seen.
unfoldable pub unseen : List String → List Edge → ℕ
unseen seen [] = 0
unseen seen (e ∷ es) = (if member e.task_id seen then 0 else 1) + unseen seen es

pub unseen_none : (es : List Edge) → unseen [] es ≡ length es
unfolding unseen member
unseen_none [] = refl
unseen_none (e ∷ es) = omega (arith, unseen_none es)

unseen-add :
    (cur : String) (seen : List String) (es : List Edge)
    → member cur seen ≡ false
    → unseen (add cur seen) es + length (targets cur es) ≡ unseen seen es
unfolding unseen targets
unseen-add cur seen [] h = refl
unseen-add cur seen (e ∷ es) h = ground (
  arith,
  unseen-add cur seen es h,
  member-add cur e.task_id seen,
  eq_iff cur e.task_id,
  eq_iff e.task_id cur,
)

length-push_all : (ns stack : List String) → length (push_all ns stack) ≡ length ns + length stack
unfolding push_all
length-push_all [] stack = omega arith
length-push_all (n ∷ ns) stack = omega (arith, length-push_all ns (n ∷ stack))

module _ (task : String) (valid : List String) (edges : List Edge) where
  pub search_ends :
      (fuel : ℕ) (seen stack : List String)
      → length stack + unseen seen edges < fuel
      → search task valid edges fuel seen stack ≢ out_of_fuel
  unfolding search adjacent
  search_ends zero seen stack h = absurd (omega arith)
  search_ends (suc fuel) seen [] h = λ e. cc
  search_ends (suc fuel) seen (cur ∷ stack) h = elim (Bool-cases (str_eq cur task)) [
    | inl same ↦ rw (same, search) (λ e. cc)
    | inr other ↦ elim (Bool-cases (member cur seen)) [
      | inl old ↦ rw (other, old, search) (search_ends fuel seen stack (omega arith))
      | inr new ↦
          rw (other, new, search)
            (search_ends fuel (add cur seen) (push_all (adjacent task valid edges cur) stack) (
              ground (
                arith,
                length-push_all (adjacent task valid edges cur) stack,
                unseen-add cur seen edges new,
                eq_iff task cur,
                eq_iff cur task,
              )))
    ]
  ]

-- Every one of these is in the set.
abbrev pub Within : List String → List String → Type 0
Within s = All (λ i. member i s ≡ true)

Within-push_all :
    (s ns stack : List String) → Within s (push_all ns stack) → Within s ns × Within s stack
unfolding push_all
Within-push_all s [] stack h = (tt, h)
Within-push_all s (n ∷ ns) stack h =
    let rest = Within-push_all s ns (n ∷ stack) h in ((rest.1.0, rest.0), rest.1.1)

module _ (task : String) (valid : List String) (edges : List Edge) where
  -- What a search that finds no way back has seen: all of the stack, closed under the edges, and not
  -- the task.
  pub record IsClosure (seen stack s : List String) : Type 0 where
    pub grows : (i : String) → member i seen ≡ true → member i s ≡ true
    pub covers : Within s stack
    pub closed :
        (i : String)
        → member i s ≡ true
        → (member i seen ≡ true)
          ⊎ ((str_eq i task ≡ false) × Within s (adjacent task valid edges i))

  pub search-IsClosure :
      (fuel : ℕ) (seen stack : List String)
      → search task valid edges fuel seen stack ≡ free
      → (s : List String) × IsClosure seen stack s
  unfolding search
  search-IsClosure zero seen stack h = absurd (cc)
  search-IsClosure (suc fuel) seen [] h =
      (seen, record { grows = λ i p. p; covers = tt; closed = λ i p. inl p })
  search-IsClosure (suc fuel) seen (cur ∷ stack) h = elim (Bool-cases (str_eq cur task)) [
    | inl same ↦ absurd (ground arith)
    | inr other ↦ elim (Bool-cases (member cur seen)) [
      | inl old ↦
          let (s, c) = search-IsClosure fuel seen stack (rw (other, old, search) at h) in
          (s, record { grows = c.grows; covers = (c.grows cur old, c.covers); closed = c.closed })
      | inr new ↦
          let next = adjacent task valid edges cur in
          let (s, c) =
            search-IsClosure fuel (add cur seen) (push_all next stack)
              (rw (other, new, search) at h) in
          let split = Within-push_all s next stack c.covers in
          (
            s,
            record {
              grows = λ i p. c.grows i (ground (arith, member-add cur i seen));
              covers =
                  (c.grows cur (ground (arith, member-add cur cur seen, eq_refl cur)), split.1);
              closed = λ i p. elim (c.closed i p) [
                | inr q ↦ inr q
                | inl q ↦ elim (Bool-cases (str_eq cur i)) [
                  | inl e ↦ inr (
                      subst (λ j. (str_eq j task ≡ false) × Within s (adjacent task valid edges j))
                        ((eq_iff cur i).0 e) (other, split.0))
                  | inr e ↦ inl (ground (arith, member-add cur i seen))
                ]
              ];
            },
          )
    ]
  ]
