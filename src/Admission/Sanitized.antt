-- ===== src/Admission/Sanitized.antt =====
-- lib/agents/admission.ts: sanitized evidence holds nothing unsafe, and is left alone from then on.
use operator_oss.Base.{
  ◌≡◌, ◌⊎◌, refl, ap, inl, inr, Bool, true, false, not, ◌&&◌, String, arith, Bool-cases,
}
use operator_oss.Admission.Evidence.{
  Value, Values, Fields, null, boolean, number, text, array, object, nil, cons, end, field,
  sanitize_string, sanitize_evidence, sanitize_values, sanitize_fields,
}

module _ (unsafe_field unsafe_value : String → Bool) where
  -- No field's name is unsafe, and no text, at any depth.
  unfoldable mutual
    pub is_safe : Value → Bool
    is_safe null = true
    is_safe (boolean b) = true
    is_safe (number n) = true
    is_safe (text s) = not (unsafe_value s)
    is_safe (array xs) = are_safe xs
    is_safe (object fs) = have_safe fs

    pub are_safe : Values → Bool
    are_safe nil = true
    are_safe (cons x xs) = is_safe x && are_safe xs

    pub have_safe : Fields → Bool
    have_safe end = true
    have_safe (field k v fs) = not (unsafe_field k) && (is_safe v && have_safe fs)

module _ (unsafe_field unsafe_value : String → Bool)
    (redacted : unsafe_value "[REDACTED]" ≡ false) where
  mutual
    unfolding is_safe sanitize_evidence sanitize_string

    clean_value :
        (v : Value)
        → is_safe unsafe_field unsafe_value (sanitize_evidence unsafe_field unsafe_value v) ≡ true
    clean_value null = refl
    clean_value (boolean b) = refl
    clean_value (number n) = refl
    clean_value (text s) = ground (arith, redacted)
    clean_value (array xs) = clean_values xs
    clean_value (object fs) = clean_fields fs

    clean_values :
        (xs : Values)
        → are_safe unsafe_field unsafe_value (sanitize_values unsafe_field unsafe_value xs) ≡ true
    clean_values nil = refl
    clean_values (cons x xs) = ground (arith, clean_value x, clean_values xs)

    clean_fields :
        (fs : Fields)
        → have_safe unsafe_field unsafe_value (sanitize_fields unsafe_field unsafe_value fs) ≡ true
    clean_fields end = refl
    clean_fields (field k v fs) = ground (arith, clean_value v, clean_fields fs)

module _ (unsafe_field unsafe_value : String → Bool) where
  mutual
    unfolding is_safe sanitize_evidence sanitize_string

    same_value :
        (v : Value)
        → is_safe unsafe_field unsafe_value v ≡ true
        → sanitize_evidence unsafe_field unsafe_value v ≡ v
    same_value null h = refl
    same_value (boolean b) h = refl
    same_value (number n) h = refl
    same_value (text s) h = ground (arith, h)
    same_value (array xs) h = ap array (same_values xs h)
    same_value (object fs) h = ap object (same_fields fs h)

    same_values :
        (xs : Values)
        → are_safe unsafe_field unsafe_value xs ≡ true
        → sanitize_values unsafe_field unsafe_value xs ≡ xs
    same_values nil h = refl
    same_values (cons x xs) h =
        ground (arith, same_value x (ground (arith, h)), same_values xs (ground (arith, h)))

    same_fields :
        (fs : Fields)
        → have_safe unsafe_field unsafe_value fs ≡ true
        → sanitize_fields unsafe_field unsafe_value fs ≡ fs
    same_fields end h = refl
    same_fields (field k v fs) h =
        ground (arith, h, same_value v (ground (arith, h)), same_fields fs (ground (arith, h)))

-- Sanitized evidence has no unsafe field name and no unsafe text at any depth, and sanitizing it
-- once more changes nothing, where the mark of a redaction is itself no unsafe text; and evidence
-- with nothing unsafe in it is kept as it is.
pub sanitize_evidence_cleans :
    (unsafe_field unsafe_value : String → Bool)
    → unsafe_value "[REDACTED]" ≡ false
    → (v : Value)
    → let clean = sanitize_evidence unsafe_field unsafe_value v in
      (is_safe unsafe_field unsafe_value clean ≡ true)
      × (sanitize_evidence unsafe_field unsafe_value clean ≡ clean)
      × ((is_safe unsafe_field unsafe_value v ≡ false) ⊎ (clean ≡ v))
sanitize_evidence_cleans unsafe_field unsafe_value redacted v =
    let clean = sanitize_evidence unsafe_field unsafe_value v in
    let safe = clean_value unsafe_field unsafe_value redacted v in
    (
      safe,
      same_value unsafe_field unsafe_value clean safe,
      elim (Bool-cases (is_safe unsafe_field unsafe_value v)) [
        | inl e ↦ inr (same_value unsafe_field unsafe_value v e)
        | inr e ↦ inl e
      ],
    )
