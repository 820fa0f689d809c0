-- ===== src/Services/Sharing.antt =====
-- lib/services.ts: who may open a service's public address. `new_token` is nanoid's.
use operator_oss.Base.{
  Bool, true, false, ◌&&◌, Option, none, some, String, str_eq, ◌==◌, if◌then◌else◌, ℕ,
}
use operator_oss.Maps.{get}
use operator_oss.Services.{
  Visibility, shared, Desired, wants_stopped, Managed, Row, Supervisor, Project, key_of, row_for,
  new_managed, change, push_status,
}
use operator_oss.Services.Lifecycle.{
  Outcome, failed, done, configured_command, config_or, find_or_add,
}
use operator_oss.Services.Rows.{persist}

abbrev is_shared : Visibility → Bool
is_shared shared = true
is_shared _ = false

abbrev pub desired_of : Option Row → Desired
desired_of none = wants_stopped
desired_of (some r) = r.desired

-- Entering `shared` makes the token, where there is none.
abbrev pub with_visibility : Visibility → String → Managed → Managed
with_visibility visibility new_token m = record m {
  visibility = visibility;
  share_token =
      if is_shared visibility && str_eq m.share_token "" then new_token else m.share_token;
}

abbrev pub with_token : String → Managed → Managed
with_token new_token m = record m { share_token = new_token }

module _ (slugify : String → String) (numbered : String → ℕ → String) (trim : String → String) where
  -- An entry that this process has not seen comes from the configuration or its row.
  unfoldable pub materialize : Project → String → Supervisor → Option (Supervisor × ℕ)
  unfolding configured_command find_or_add
  materialize project name s = elim (get (key_of project.id name) s.services) [
    | some i ↦ some (s, i)
    | none ↦
        let cfg = configured_command trim project name in
        let add =
          λ (m : Managed). some (find_or_add slugify numbered (key_of project.id name) m s) in
        elim (row_for project.id name s.rows) [
          | none ↦ elim cfg [
            | none ↦ none
            | some c ↦ add (new_managed project.id name c.kind c.command project.port true s.rows)
          ]
          | some r ↦ add (
              new_managed project.id name (config_or cfg (λ c. c.kind) r.kind)
                (config_or cfg (λ c. c.command) r.command)
                (if r.port == 0 then project.port else r.port) (config_or cfg (λ c. true) r.managed)
                s.rows)
        ]
  ]

  unfoldable pub save : ℕ → Project → String → Supervisor → Outcome
  unfolding persist
  save i project name s =
      let (s', written_ok) =
        persist slugify numbered i project (desired_of (row_for project.id name s.rows)) s in
      if written_ok then done (push_status i s') i else failed s'

  unfoldable pub set_service_visibility :
      Project → String → Visibility → String → Supervisor → Outcome
  unfolding materialize save
  set_service_visibility project name visibility new_token s = elim (materialize project name s) [
    | none ↦ failed s
    | some (s', i) ↦ save i project name (change i (with_visibility visibility new_token) s')
  ]

  unfoldable pub rotate_share_token : Project → String → String → Supervisor → Outcome
  unfolding save
  rotate_share_token project name new_token s = elim (get (key_of project.id name) s.services) [
    | none ↦ failed s
    | some i ↦ save i project name (change i (with_token new_token) s)
  ]
