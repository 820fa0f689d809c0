-- ===== src/Services/Rows.antt =====
-- lib/services.ts: the writes to the services table.
use operator_oss.Base.{
  ℕ, Bool, true, false, not, ◌&&◌, ◌||◌, none, some, List, [], ◌∷◌, String, str_eq, if◌then◌else◌,
  map,
}
use operator_oss.Services.{Desired, Managed, Row, Supervisor, Project, is_row, change, assign_slug}

-- Another row has the label: the UNIQUE constraint on it fails.
unfoldable pub taken_elsewhere : String → String → String → List Row → Bool
taken_elsewhere project_id name s [] = false
taken_elsewhere project_id name s (r ∷ rows) =
    (str_eq r.slug s && not (is_row project_id name r)) || taken_elsewhere project_id name s rows

abbrev pub written : Managed → String → Desired → ℕ → Row
written m slug desired pid = record {
  project_id = m.project_id;
  name = m.name;
  slug = slug;
  kind = m.kind;
  command = m.command;
  port = m.port;
  managed = m.managed;
  desired = desired;
  visibility = m.visibility;
  share_token = m.share_token;
  pid = pid;
}

-- INSERT, or UPDATE of every column but the pid.
unfoldable pub write_row : Managed → String → Desired → List Row → List Row
write_row m slug desired [] = written m slug desired 0 ∷ []
write_row m slug desired (r ∷ rows) =
    let rest = write_row m slug desired rows in
    if is_row m.project_id m.name r then written m slug desired r.pid ∷ rows else r ∷ rest

abbrev update_row : String → String → (Row → Row) → List Row → List Row
update_row project_id name f = map (λ r. if is_row project_id name r then f r else r)

unfoldable pub set_desired : String → String → Desired → Supervisor → Supervisor
set_desired project_id name desired s = record s {
  rows = update_row project_id name (λ r. record r { desired = desired }) s.rows;
}

unfoldable pub set_pid : String → String → ℕ → Supervisor → Supervisor
set_pid project_id name pid s = record s {
  rows = update_row project_id name (λ r. record r { pid = pid }) s.rows;
}

module _ (slugify : String → String) (numbered : String → ℕ → String) where
  -- The flag says that it did not throw.
  unfoldable pub persist : ℕ → Project → Desired → Supervisor → Supervisor × Bool
  unfolding assign_slug taken_elsewhere write_row
  persist i project desired s = elim (assign_slug slugify numbered (s.objects i) project s.rows) [
    | none ↦ (s, false)
    | some slug ↦
        let s' = change i (λ m. record m { slug = some slug }) s in
        let m = s'.objects i in
        if taken_elsewhere m.project_id m.name slug s.rows
        then (s', false)
        else (record s' { rows = write_row m slug desired s.rows }, true)
  ]
