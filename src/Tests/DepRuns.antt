-- ===== src/Tests/DepRuns.antt =====
-- lib/store.ts: dependencies between three tasks of one project.
use operator_oss.Base.{
  ◌≡◌, ◌⊎◌, refl, true, false, none, some, List, [], ◌∷◌, String, str_eq, Bool-cases, inl, inr,
  arith, eq_iff, sym, subst,
}
use operator_oss.World.{World, WorkspaceMode, Task, Status, get_task}
use operator_oss.Deps.{
  Edge, replace_edges, valid_deps, set_task_deps, ok, err, task_not_found, dependency_cycle,
  is_sibling, push_all, adjacent, targets,
}
use operator_oss.Maps.{get}
use operator_oss.Sets.{member, add}
use operator_oss.Deps.Acyclic.{Depends, direct, through, HasEdge, IsAcyclic, set_task_deps_decides}

abbrev task : Task
task = record {
  project_id = "p";
  title = "Fix";
  description = "it";
  agent = "claude";
  model = none;
  reasoning = none;
  permission_mode = none;
  workspace_mode = WorkspaceMode.direct;
  launch_config_required = false;
  launch_config_confirmed_at = 0;
  generation = 1;
  status = Status.in_progress;
  suggested = false;
  started = false;
  running = false;
  awaiting_input = false;
  session_id = none;
  resolved_model = none;
  turn_started_at = none;
  worktree_path = "";
  work_branch = "";
  base_sha = "";
}

abbrev world : World
world = record {
  clock = 20;
  next_id = 6;
  turns = record { turns = []; deleting = []; next = 1; aborted = [] };
  tasks = ("a", task) ∷ ("b", task) ∷ ("c", task) ∷ [];
  projects = ("p", record { repo_path = "/r"; branch = "main" }) ∷ [];
  pending = [];
  messages = [];
  sessions = [];
  usage = [];
  broken = [];
  first_task = true;
  bus = [];
  lifecycle = [];
  tracked = [];
}

-- b waits for a.
abbrev table : List Edge
table = record { task_id = "b"; depends_on_id = "a" } ∷ []

cycle_refused : set_task_deps "a" ("b" ∷ []) world table ≡ err dependency_cycle
unfolding set_task_deps valid_deps get member is_sibling push_all adjacent targets
cycle_refused = refl

abbrev extended : List Edge
extended =
    record { task_id = "b"; depends_on_id = "a" }
    ∷ record { task_id = "a"; depends_on_id = "c" }
    ∷ []

extends : set_task_deps "a" ("c" ∷ "a" ∷ "c" ∷ "x" ∷ []) world table ≡ ok extended
unfolding set_task_deps valid_deps get member is_sibling add push_all adjacent targets
extends = refl

apart : (x : String) → str_eq "b" x ≡ true → ¬ (str_eq x "a" ≡ true)
apart x b a =
    let no_such : str_eq "b" "a" ≡ true =
      subst (λ (z : String). str_eq z "a" ≡ true) (sym ((eq_iff "b" x).0 b)) a in
    absurd (cc)

only_edge : (x y : String) → HasEdge table x y → (str_eq "b" x ≡ true) × (str_eq y "a" ≡ true)
unfolding targets member
only_edge x y e = elim (Bool-cases (str_eq "b" x)) [
  | inl b ↦ (b, ground (arith, b, e, eq_iff y "a", eq_iff "a" y))
  | inr b ↦ absurd (ground (arith, b, e))
]

only_chain : {x y : String} → Depends table x y → (str_eq "b" x ≡ true) × (str_eq y "a" ≡ true)
only_chain (direct {x} {y} e) = only_edge x y e
only_chain (through {x} {y} e d) = absurd (apart y (only_chain d).0 (only_edge x y e).1)

table-IsAcyclic : IsAcyclic table
table-IsAcyclic x d = let (b, a) = only_chain d in apart x b a

set_task_deps_decides_example :
    ((get_task "a" world ≡ none) × (set_task_deps "a" ("b" ∷ []) world table ≡ err task_not_found))
    ⊎ ((t : Task) × (new : List Edge) × (get_task "a" world ≡ some t)
        × (new ≡ replace_edges "a" (valid_deps "a" t.project_id world ("b" ∷ [])) table)
        × (((set_task_deps "a" ("b" ∷ []) world table ≡ ok new) × IsAcyclic new)
            ⊎ ((set_task_deps "a" ("b" ∷ []) world table ≡ err dependency_cycle)
                × Depends new "a" "a")))
set_task_deps_decides_example = set_task_deps_decides "a" ("b" ∷ []) world table table-IsAcyclic
