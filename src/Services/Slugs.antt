-- ===== src/Services/Slugs.antt =====
-- lib/services.ts: the public labels. A fresh label is found within the tries that the loop has, and
-- labels stay distinct and fixed.
use operator_oss.Base.{
  ℕ, zero, suc, ◌+◌, ◌≤◌, ◌<◌, ◌≡◌, refl, sym, ◌∙◌, inl, inr, true, false, not, some, List, [], ◌∷◌,
  String, str_eq, eq_iff, length, arith, Bool-cases, filter,
}
use operator_oss.Services.{Row, taken, first_free}

without : String → List Row → List Row
without a rows = filter (λ r. not (str_eq r.slug a)) rows

taken-without :
    (a t : String) (rows : List Row) → str_eq a t ≡ false → taken t (without a rows) ≡ taken t rows
unfolding taken without
taken-without a t [] h = refl
taken-without a t (r ∷ rows) h =
    ground (arith, taken-without a t rows h, eq_iff r.slug a, eq_iff r.slug t, eq_iff a t)

length-without_at_most : (a : String) (rows : List Row) → length (without a rows) ≤ length rows
unfolding without
length-without_at_most a [] = omega arith
length-without_at_most a (r ∷ rows) = ground (arith, length-without_at_most a rows)

length-without :
    (a : String) (rows : List Row) → taken a rows ≡ true → length (without a rows) < length rows
unfolding taken without
length-without a [] h = absurd (cc)
length-without a (r ∷ rows) h = elim (Bool-cases (str_eq r.slug a)) [
  | inl e ↦ ground (arith, length-without_at_most a rows)
  | inr e ↦ ground (arith, length-without a rows (ground (arith, e, h)))
]

module _ (candidate : ℕ → String) where
  first_free_cong :
      (rows rows' : List Row) (fuel i : ℕ)
      → ((j : ℕ) → i ≤ j → taken (candidate j) rows ≡ taken (candidate j) rows')
      → first_free candidate rows fuel i ≡ first_free candidate rows' fuel i
  unfolding first_free
  first_free_cong rows rows' zero i h = refl
  first_free_cong rows rows' (suc fuel) i h =
      let rest = first_free_cong rows rows' fuel (i + 1) (λ j le. h j (omega arith)) in
      ground (arith, rest, h i (omega arith))

  pub first_free-taken :
      (rows : List Row) (fuel i : ℕ) (s : String)
      → first_free candidate rows fuel i ≡ some s
      → taken s rows ≡ false
  unfolding first_free
  first_free-taken rows zero i s h = absurd (cc)
  first_free-taken rows (suc fuel) i s h = elim (Bool-cases (taken (candidate i) rows)) [
    | inl t ↦ first_free-taken rows fuel (i + 1) s (rw (t, first_free) at h)
    | inr t ↦ ground arith
  ]

  pub first_free_found :
      ((i j : ℕ) → candidate i ≡ candidate j → i ≡ j)
      → (rows : List Row) (fuel i : ℕ) → length rows < fuel
      → (s : String) × (first_free candidate rows fuel i ≡ some s)
  unfolding first_free
  first_free_found inj rows zero i h = absurd (omega arith)
  first_free_found inj rows (suc fuel) i h = elim (Bool-cases (taken (candidate i) rows)) [
    | inr t ↦ (candidate i, ground arith)
    | inl t ↦
        let rows' = without (candidate i) rows in
        let (s, e) =
          first_free_found inj rows' fuel (i + 1)
            (omega (arith, length-without (candidate i) rows t)) in
        (
          s,
          rw (t, first_free)
              (first_free_cong rows rows' fuel (i + 1)
                  (λ j le. sym (taken-without (candidate i) (candidate j) rows (differs i j le)))
                ∙ e),
        )
  ]
    where
      differs : (i j : ℕ) → i + 1 ≤ j → str_eq (candidate i) (candidate j) ≡ false
      differs i j le = elim (Bool-cases (str_eq (candidate i) (candidate j))) [
        | inr e ↦ e
        | inl e ↦ absurd (omega (arith, inj i j ((eq_iff (candidate i) (candidate j)).0 e)))
      ]
