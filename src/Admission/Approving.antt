-- ===== src/Admission/Approving.antt =====
-- lib/agents/admission.ts: what an approval of an artifact stands for.
use mathlib.Core.List.{Memᴰ}
use operator_oss.Base.{
  ℕ, ◌≡◌, refl, sym, ◌∙◌, inl, inr, Bool, true, false, not, ◌&&◌, Option, none, some, List, [], ◌∷◌,
  String, str_eq, eq_iff, arith, Bool-cases, Option-cases, filter,
}
use operator_oss.Admission.{
  same_kind, succeeded, has_paired, kind_fault, tool_loop_gate, gates_of, all_passed,
  exact_identity, usage_passed, is_model, is_only, is_none, reduce_admission, approval_record,
  approved,
}
use operator_oss.Admission.Observed.{
  Observation, ToolKind, read, edit, command, Call, ToolResult, ToolLoop,
}

-- Some call of the kind has a result under its id that is no error.
abbrev pub WasExercised : ToolLoop → ToolKind → Type 0
WasExercised t kind =
    (c : Call) × (r : ToolResult) × Memᴰ c t.calls
    × Memᴰ r t.results
    × (same_kind c.kind kind ≡ true)
    × (r.id ≡ c.id)
    × (r.is_error ≡ false)

succeeded_lem :
    (id : String) (rs : List ToolResult)
    → succeeded id rs ≡ true
    → (r : ToolResult) × Memᴰ r rs × (r.id ≡ id) × (r.is_error ≡ false)
unfolding succeeded
succeeded_lem id [] h = absurd (cc)
succeeded_lem id (r ∷ rs) h = elim (Bool-cases (not r.is_error && str_eq r.id id)) [
  | inl e ↦ (r, Memᴰ.head refl, (eq_iff r.id id).0 (ground arith), ground arith)
  | inr e ↦
      let (x, m, same, fine) = succeeded_lem id rs (ground (arith, e, h)) in
      (x, Memᴰ.tail m, same, fine)
]

paired_lem :
    (kind : ToolKind) (cs : List Call) (rs : List ToolResult)
    → has_paired (filter (λ c. same_kind c.kind kind) cs) rs ≡ true
    → (c : Call) × Memᴰ c cs × (same_kind c.kind kind ≡ true) × (succeeded c.id rs ≡ true)
unfolding has_paired
paired_lem kind [] rs h = absurd (cc)
paired_lem kind (c ∷ cs) rs h = elim (Bool-cases (same_kind c.kind kind)) [
  | inr other ↦
      let (x, m, k, s) = paired_lem kind cs rs (ground (arith, other, h)) in (x, Memᴰ.tail m, k, s)
  | inl same ↦ elim (Bool-cases (succeeded c.id rs)) [
    | inl yes_it ↦ (c, Memᴰ.head refl, same, yes_it)
    | inr fails ↦
        let (x, m, k, s) = paired_lem kind cs rs (ground (arith, same, fails, h)) in
        (x, Memᴰ.tail m, k, s)
  ]
]

kind_fault_lem : (t : ToolLoop) (kind : ToolKind) → kind_fault t kind ≡ none → WasExercised t kind
unfolding kind_fault
kind_fault_lem t kind h =
    let (c, m, k, s) = paired_lem kind t.calls t.results (ground arith) in
    let (r, n, same, fine) = succeeded_lem c.id t.results s in (c, r, m, n, k, same, fine)

tool_loop_lem :
    (show : ℕ → String) (t : ToolLoop) (kind : ToolKind)
    → (tool_loop_gate show t).passed ≡ true
    → kind_fault t kind ≡ none
unfolding tool_loop_gate
tool_loop_lem show t read h = ground arith
tool_loop_lem show t edit h = ground arith
tool_loop_lem show t command h = ground arith

-- A test on all nine gates holds only where each of them passed.
all_passed_lem :
    (hash : String → String) (show : ℕ → String) (o : Observation) (alias model : String)
    → approval_record (reduce_admission hash show o) ≡ approved alias model
    → all_passed (gates_of show o) ≡ true
unfolding approval_record reduce_admission
all_passed_lem hash show o alias model h = elim (Bool-cases (all_passed (gates_of show o))) [
  | inl e ↦ e
  | inr e ↦ absurd (ground (arith, e, h))
]

names_lem :
    (hash : String → String) (show : ℕ → String) (o : Observation) (alias model : String)
    → approval_record (reduce_admission hash show o) ≡ approved alias model
    → (alias ≡ o.alias) × (o.identity.resolved_model ≡ some model)
unfolding approval_record reduce_admission
names_lem hash show o alias model h = elim (Bool-cases (all_passed (gates_of show o))) [
  | inl e ↦ elim (Option-cases o.identity.resolved_model) [
    | inl none_it ↦ absurd (ground (arith, e, none_it, h))
    | inr (m, some_it) ↦ elim (Bool-cases (str_eq m "")) [
      | inl empty ↦ absurd (ground (arith, e, some_it, empty, h))
      | inr full ↦ (ground (arith, e, some_it, full, h), ground (arith, e, some_it, full, h))
    ]
  ]
  | inr e ↦ absurd (ground (arith, e, h))
]

and_split : {a b : Bool} → (a && b) ≡ true → (a ≡ true) × (b ≡ true)
and_split {a} {b} h = (ground (arith, h), ground (arith, h))

not_lem : {a : Bool} → not a ≡ true → a ≡ false
not_lem {a} h = ground (arith, h)

record Passed (show : ℕ → String) (o : Observation) : Type 0 where
  identity : exact_identity o ≡ true
  loop : (tool_loop_gate show o.tool_loop).passed ≡ true
  metered : usage_passed o ≡ true
  fixture : o.disposable ≡ true
  resume : (o.same_session ≡ true) × (o.planted_fact_recalled ≡ true)
  stop : (o.stop_settled ≡ true) × (is_none o.surviving_processes ≡ true)
  leak : o.ambient_credential_leak ≡ false

gates_lem :
    (show : ℕ → String) (o : Observation) → all_passed (gates_of show o) ≡ true → Passed show o
unfolding gates_of all_passed
gates_lem show o h =
    let (identity, h1) = and_split h in
    let (basic, h2) = and_split h1 in
    let (loop, h3) = and_split h2 in
    let (bridge, h4) = and_split h3 in
    let (repository, h5) = and_split h4 in
    let (resume, h6) = and_split h5 in
    let (stop, h7) = and_split h6 in
    let (usage, isolation) = and_split h7 in
    let (_, s1) = and_split stop in
    let (settled, s2) = and_split s1 in
    let (_, gone) = and_split s2 in
    let (_, i1) = and_split isolation in
    let (_, dry) = and_split i1 in
    let (fixture, _) = and_split repository in
    record {
      identity = identity;
      loop = loop;
      metered = usage;
      fixture = fixture;
      resume = and_split resume;
      stop = (settled, gone);
      leak = not_lem dry;
    }

is_model_lem :
    (m : Option String) (model expected : String)
    → m ≡ some model
    → is_model m expected ≡ true
    → str_eq model expected ≡ true
is_model_lem none model expected e h = absurd (cc)
is_model_lem (some m) model expected e h = ground (arith, e, h)

identity_lem :
    (o : Observation) (model : String)
    → exact_identity o ≡ true
    → o.identity.resolved_model ≡ some model
    → (o.identity.requested_alias ≡ o.alias) × (model ≡ o.expected_resolved_model)
unfolding exact_identity
identity_lem o model h e = (
  (eq_iff o.identity.requested_alias o.alias).0 (ground (arith, h)),
  (eq_iff model o.expected_resolved_model).0 (
      is_model_lem o.identity.resolved_model model o.expected_resolved_model e
        (and_split (and_split h).1).0),
)

usage_lem :
    (o : Observation)
    → usage_passed o ≡ true
    → is_only o.reconciliation.physical_models o.expected_resolved_model ≡ true
unfolding usage_passed
usage_lem o h = ground (arith, h)

is_none_lem : {A : Type 0} (xs : List A) → is_none xs ≡ true → xs ≡ []
is_none_lem [] h = refl
is_none_lem (x ∷ xs) h = absurd (cc)

-- What an approval of the alias for a model rests on.
pub record IsProven (o : Observation) (alias model : String) : Type 0 where
  pub asked : (alias ≡ o.alias) × (o.identity.requested_alias ≡ alias)
  pub expected : (model ≡ o.expected_resolved_model) × (o.identity.resolved_model ≡ some model)
  pub metered : is_only o.reconciliation.physical_models model ≡ true
  pub exercised : (kind : ToolKind) → WasExercised o.tool_loop kind
  pub stopped : (o.stop_settled ≡ true) × (o.surviving_processes ≡ [])
  pub contained : (o.ambient_credential_leak ≡ false) × (o.disposable ≡ true)
  pub resumed : (o.same_session ≡ true) × (o.planted_fact_recalled ≡ true)

-- An approval is never given without proof: the alias that was asked for resolved to the expected
-- model, which is the only physical model that the provider billed; a read, an edit and a command
-- each had a call with a result that is no error; the same session was resumed and recalled its
-- fact; the stop settled and left no process; the fixture was disposable and no credential leaked.
pub approval_record-IsProven :
    (hash : String → String) (show : ℕ → String) (o : Observation) (alias model : String)
    → approval_record (reduce_admission hash show o) ≡ approved alias model
    → IsProven o alias model
unfolding approval_record reduce_admission gates_of all_passed exact_identity usage_passed
approval_record-IsProven hash show o alias model h =
    let (same, resolved) = names_lem hash show o alias model h in
    let p = gates_lem show o (all_passed_lem hash show o alias model h) in
    let (requested, expected) = identity_lem o model p.identity resolved in
    record {
      asked = (same, requested ∙ sym same);
      expected = (expected, resolved);
      metered = rw (expected) (usage_lem o p.metered);
      exercised = λ k. kind_fault_lem o.tool_loop k (tool_loop_lem show o.tool_loop k p.loop);
      stopped = (p.stop.0, is_none_lem o.surviving_processes p.stop.1);
      contained = (p.leak, p.fixture);
      resumed = p.resume;
    }
