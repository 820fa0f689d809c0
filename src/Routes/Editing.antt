-- ===== src/Routes/Editing.antt =====
-- app/api/tasks/[id]/route.ts: what a PATCH keeps.
use operator_oss.Base.{
  ℕ, ◌≡◌, ◌⊎◌, refl, ap, sym, subst, ◌∙◌, inl, inr, Bool, true, false, not, ◌&&◌, ◌||◌, Option,
  none, some, String, eq_iff, ◌==◌, arith, Bool-cases, is_some, str_eq,
}
use operator_oss.World.{Task, WorkspaceMode}
use operator_oss.LaunchConfig.{Capabilities, validate_launch_configuration, config_of}
use operator_oss.Routes.Edit.{
  Edit, Allowed, Step, denied, allowed, and_then, value_or, with_columns, has_session,
  has_workspace, has_null, check_mode, check_starting, whitelisted, same_text, changes,
  changes_agent, configured, switch_to, switch_agent, or_reset, initial_permission,
  check_permission, permission_fine, check_config, is_invalid, launch_config_changed,
  reset_confirmation, confirm_setup, edit_of,
}

and_then-allowed :
    (s : Step) (f : Allowed → Step) (a : Allowed)
    → and_then s f ≡ allowed a
    → (a₁ : Allowed) × (s ≡ allowed a₁) × (f a₁ ≡ allowed a)
and_then-allowed (denied code) f a h = cc
and_then-allowed (allowed a₁) f a h = (a₁, refl, h)

same_text-eq : (s r : Option String) → same_text s r ≡ true → s ≡ r
same_text-eq none none h = refl
same_text-eq (some s) (some r) h = ap some ((eq_iff s r).0 h)
same_text-eq none (some r) h = cc
same_text-eq (some s) none h = cc

kept_text :
    (v : Option (Option String)) (old : Option String)
    → changes v old ≡ false
    → value_or v old ≡ old
kept_text none old h = refl
kept_text (some new) old h = same_text-eq new old (ground arith)

not_some : {A : Type 0} (o : Option A) → is_some o ≡ false → o ≡ none
not_some none h = refl
not_some (some a) h = cc

kept_agent : (v : Option String) (old : String) → changes_agent v old ≡ false → value_or v old ≡ old
kept_agent none old h = refl
kept_agent (some new) old h = (eq_iff new old).0 (ground arith)

module _ (catalog : String → Option Capabilities) (default_one : Capabilities)
    (get_setting : String → Option String) where
  -- A null for a column that takes none, in the columns and in the body.
  abbrev nulls_of : Allowed → Bool
  nulls_of a = has_null a.title a.description a.status a.suggested

  abbrev pub nulls_in : Edit → Bool
  nulls_in b = has_null b.title b.description b.status b.suggested

  -- What the columns set so far may do to a task.
  abbrev IsFit : Edit → Task → Allowed → Type 0
  IsFit b t a =
      ((a.agent ≡ none) ⊎ (has_session t ≡ false))
      × ((a.workspace_mode ≡ none) ⊎ (has_workspace t ≡ false))
      × (a.status ≡ b.status)
      × (a.launch_config_confirmed_at ≡ none)
      × (nulls_of a ≡ nulls_in b)

  abbrev switched : String → Allowed → Allowed
  switched next a = record a {
    agent = some next;
    model = or_reset catalog default_one get_setting a.model none;
    reasoning = or_reset catalog default_one get_setting a.reasoning none;
    permission_mode =
        or_reset catalog default_one get_setting a.permission_mode
          (initial_permission catalog default_one get_setting next);
    resolved_model = some none;
  }

  allowed_inj : (a a' : Allowed) → allowed a ≡ allowed a' → a ≡ a'
  allowed_inj a a' e = cc

  switch_to-IsFit :
      (b : Edit) (next : String) (t : Task) (a a' : Allowed)
      → switch_to catalog default_one get_setting next t a ≡ allowed a'
      → IsFit b t a
      → IsFit b t a'
  switch_to-IsFit b next t a a' h f = elim (Bool-cases (is_some (catalog next))) [
    | inr unknown ↦ ground (arith, unknown, h)
    | inl known ↦ elim (Bool-cases (str_eq next t.agent)) [
      | inl same ↦ let e : a' ≡ a = ground (arith, known, same, h) in subst (IsFit b t) (sym e) f
      | inr moves ↦ elim (Bool-cases (has_session t)) [
        | inl bound ↦ ground (arith, known, moves, bound, h)
        | inr fresh ↦
            let e : a' ≡ switched next a =
              allowed_inj _ _ (sym h ∙ rw (known, moves, fresh) refl) in
            (
              inr fresh,
              rw (ap (λ z. z.workspace_mode) e) f.1,
              ap (λ z. z.status) e ∙ f.2,
              ap (λ z. z.launch_config_confirmed_at) e ∙ f.3,
              ap nulls_of e ∙ f.4,
            )
      ]
    ]
  ]

  check_mode-IsFit :
      (m : Option (Option WorkspaceMode)) (b : Edit) (t : Task) (a : Allowed)
      → check_mode m t (whitelisted b) ≡ allowed a
      → IsFit b t a
  check_mode-IsFit none b t a h = ground arith
  check_mode-IsFit (some none) b t a h = ground arith
  check_mode-IsFit (some (some m)) b t a h = ground arith

  check_starting-same :
      (b : Edit) (live : Bool) (t : Task) (a a' : Allowed)
      → check_starting b live t a ≡ allowed a'
      → a' ≡ a
  check_starting-same b live t a a' h = ground arith

  switch_agent-IsFit :
      (b : Edit) (n : Option (Option String)) (t : Task) (a a' : Allowed)
      → switch_agent catalog default_one get_setting n t a ≡ allowed a'
      → IsFit b t a
      → IsFit b t a'
  switch_agent-IsFit b none t a a' h f = ground arith
  switch_agent-IsFit b (some none) t a a' h f = ground arith
  switch_agent-IsFit b (some (some next)) t a a' h f = switch_to-IsFit b next t a a' h f

  check_permission-same :
      (t : Task) (a a' : Allowed)
      → check_permission catalog default_one get_setting t a ≡ allowed a'
      → (a' ≡ a)
        × (permission_fine catalog default_one get_setting a.permission_mode
              (value_or a.agent t.agent)
            ≡ true)
  check_permission-same t a a' h = ground arith

  check_config-same :
      (b : Edit) (t : Task) (a a' : Allowed)
      → check_config catalog default_one get_setting b t a ≡ allowed a'
      → a' ≡ a
  check_config-same b t a a' h = ground arith

  -- A confirmed setup of a suggestion that has no session is valid.
  abbrev pub is_reviewed : Task → Bool
  is_reviewed t =
      t.started
      || (not t.launch_config_required
          || (t.launch_config_confirmed_at == 0
              || not (is_some (validate_launch_configuration catalog (config_of t)))))

  unchanged_config :
      (t : Task) (a : Allowed)
      → launch_config_changed catalog default_one get_setting a t ≡ false
      → configured a t ≡ config_of t
  unchanged_config t a h =
      rw
        (
          kept_agent a.agent t.agent (ground arith),
          kept_text a.model t.model (ground arith),
          kept_text a.reasoning t.reasoning (ground arith),
        )
        refl

  reviewed_after :
      (b : Edit) (now : ℕ) (t : Task) (a a' : Allowed)
      → confirm_setup catalog default_one get_setting b now t
          (reset_confirmation catalog default_one get_setting t a)
        ≡ allowed a'
      → a.launch_config_confirmed_at ≡ none
      → is_reviewed t ≡ true
      → is_reviewed (with_columns a' t) ≡ true
  unfolding with_columns
  reviewed_after b now t a a' h fresh r =
      elim (Bool-cases (launch_config_changed catalog default_one get_setting a t)) [
        | inl moved ↦ ground (arith)
        | inr same ↦ ground (arith, unchanged_config t a same)
      ]

  -- What the checks let through.
  abbrev pub IsLetThrough : Edit → ℕ → Task → Allowed → Type 0
  IsLetThrough b now t a =
      (a.status ≡ b.status)
      × ((a.agent ≡ none) ⊎ (has_session t ≡ false))
      × ((a.workspace_mode ≡ none) ⊎ (has_workspace t ≡ false))
      × (permission_fine catalog default_one get_setting a.permission_mode
            (value_or a.agent t.agent)
          ≡ true)
      × ((is_reviewed t ≡ false) ⊎ (is_reviewed (with_columns a t) ≡ true))
      × ((b.confirm ≡ false)
          ⊎ ((t.started ≡ false)
              × (a.launch_config_confirmed_at ≡ some now)
              × (validate_launch_configuration catalog (config_of (with_columns a t)) ≡ none)))
      × (nulls_of a ≡ nulls_in b)

  -- The last two checks write nothing but the confirmation.
  confirm_setup-same :
      (b : Edit) (now : ℕ) (t : Task) (a a' : Allowed)
      → confirm_setup catalog default_one get_setting b now t a ≡ allowed a'
      → (record a' { launch_config_confirmed_at = none }
          ≡ record a { launch_config_confirmed_at = none })
        × ((b.confirm ≡ false)
            ⊎ ((t.started ≡ false)
                × (a'.launch_config_confirmed_at ≡ some now)
                × (is_invalid catalog default_one get_setting a t ≡ false)))
  confirm_setup-same b now t a a' h = elim (Bool-cases b.confirm) [
    | inr asks_not ↦ let e : a' ≡ a = ground arith in (rw e refl, inl asks_not)
    | inl asks ↦ elim (Bool-cases t.started) [
      | inl started ↦ ground (arith, h)
      | inr starts ↦ elim (Bool-cases (is_invalid catalog default_one get_setting a t)) [
        | inl invalid ↦ ground (arith, h)
        | inr valid ↦
            let e : a' ≡ record a { launch_config_confirmed_at = some now } = ground arith in
            (rw e refl, inr (starts, rw e refl, valid))
      ]
    ]
  ]

  reset_confirmation-same :
      (t : Task) (a : Allowed)
      → record (reset_confirmation catalog default_one get_setting t a) {
        launch_config_confirmed_at = none;
      }
        ≡ record a { launch_config_confirmed_at = none }
  reset_confirmation-same t a =
      elim (Bool-cases (
        launch_config_changed catalog default_one get_setting a t
        && (not t.started && t.launch_config_required))) [
          | inl yes_it ↦ rw yes_it refl
          | inr not_it ↦ rw not_it refl
        ]

  last_step :
      (b : Edit) (now : ℕ) (t : Task) (a a' : Allowed)
      → IsFit b t a
      → permission_fine catalog default_one get_setting a.permission_mode (value_or a.agent t.agent)
        ≡ true
      → confirm_setup catalog default_one get_setting b now t
          (reset_confirmation catalog default_one get_setting t a)
        ≡ allowed a'
      → IsLetThrough b now t a'
  unfolding with_columns
  last_step b now t a a' f offered h =
      let r : (is_reviewed t ≡ false) ⊎ (is_reviewed (with_columns a' t) ≡ true) =
        elim (Bool-cases (is_reviewed t)) [
          | inl yes_it ↦ inr (reviewed_after b now t a a' h f.3 yes_it)
          | inr not_it ↦ inl not_it
        ] in
      let x =
        confirm_setup-same b now t (reset_confirmation catalog default_one get_setting t a) a' h in
      let y = x.0 ∙ reset_confirmation-same t a in
      let ag : a'.agent ≡ a.agent = ap (λ z. z.agent) y in
      let mo : a'.model ≡ a.model = ap (λ z. z.model) y in
      let re : a'.reasoning ≡ a.reasoning = ap (λ z. z.reasoning) y in
      let wo : a'.workspace_mode ≡ a.workspace_mode = ap (λ z. z.workspace_mode) y in
      let pe : a'.permission_mode ≡ a.permission_mode = ap (λ z. z.permission_mode) y in
      let same : configured a' t
          ≡ configured (reset_confirmation catalog default_one get_setting t a) t =
        ap (λ z. configured z t) x.0 in
      let st : a'.status ≡ a.status = ap (λ z. z.status) y in
      (
        st ∙ f.2,
        rw ag (f.0),
        rw wo (f.1),
        rw (pe, ag) offered,
        r,
        elim x.1 [
          | inl n ↦ inl n
          | inr (starts, at, valid) ↦ inr (starts, at, not_some _ (rw same valid))
        ],
        ap nulls_of y ∙ f.4,
      )

  pub edit_of-IsLetThrough :
      (b : Edit) (live : Bool) (now : ℕ) (t : Task) (a : Allowed)
      → edit_of catalog default_one get_setting b live now t ≡ allowed a
      → IsLetThrough b now t a
  unfolding edit_of with_columns
  edit_of-IsLetThrough b live now t a h =
      let (a₁, e₁, h₁) = and_then-allowed _ _ a h in
      let (a₂, e₂, h₂) = and_then-allowed _ _ a h₁ in
      let (a₃, e₃, h₃) = and_then-allowed _ _ a h₂ in
      let (a₄, e₄, h₄) = and_then-allowed _ _ a h₃ in
      let (a₅, e₅, h₅) = and_then-allowed _ _ a h₄ in
      let s₂ = check_starting-same b live t a₁ a₂ e₂ in
      let (s₄, offered) = check_permission-same t a₃ a₄ e₄ in
      let s₅ = check_config-same b t a₄ a₅ e₅ in
      let f =
        switch_agent-IsFit b b.agent t a₂ a₃ e₃
          (subst (IsFit b t) (sym s₂) (check_mode-IsFit b.workspace_mode b t a₁ e₁)) in
      let g : a₅ ≡ a₃ = s₅ ∙ s₄ in
      last_step b now t a₃ a f offered (
        subst
          (λ x.
            confirm_setup catalog default_one get_setting b now t
              (reset_confirmation catalog default_one get_setting t x)
            ≡ allowed a)
          g h₅)
