-- ===== src/Admission/Evidence.antt =====
-- lib/agents/admission.ts: sanitizeEvidence, over the values that JSON has. `unsafe_field` and
-- `unsafe_value` are the tests of UNSAFE_FIELD and of the expressions of UNSAFE_VALUE.
use operator_oss.Base.{Bool, String, if◌then◌else◌, ℕ}

mutual
  pub data Value : Type 0 where
    null : Value
    boolean : Bool → Value
    number : ℕ → Value
    text : String → Value
    array : Values → Value
    object : Fields → Value

  pub data Values : Type 0 where
    nil : Values
    cons : Value → Values → Values

  pub data Fields : Type 0 where
    end : Fields
    field : String → Value → Fields → Fields

module _ (unsafe_field unsafe_value : String → Bool) where
  unfoldable pub sanitize_string : String → String
  sanitize_string value = if unsafe_value value then "[REDACTED]" else value

  unfoldable mutual
    unfolding sanitize_string

    pub sanitize_evidence : Value → Value
    sanitize_evidence null = null
    sanitize_evidence (boolean b) = boolean b
    sanitize_evidence (number n) = number n
    sanitize_evidence (text s) = text (sanitize_string s)
    sanitize_evidence (array xs) = array (sanitize_values xs)
    sanitize_evidence (object fs) = object (sanitize_fields fs)

    pub sanitize_values : Values → Values
    sanitize_values nil = nil
    sanitize_values (cons x xs) = cons (sanitize_evidence x) (sanitize_values xs)

    pub sanitize_fields : Fields → Fields
    sanitize_fields end = end
    sanitize_fields (field k v fs) =
        let rest = sanitize_fields fs in
        let clean = sanitize_evidence v in if unsafe_field k then rest else field k clean rest
