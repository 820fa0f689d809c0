-- ===== src/Deps/Replacing.antt =====
-- lib/store.ts: what getTaskDeps reads after setTaskDeps.
use operator_oss.Base.{
  ◌≡◌, refl, sym, ap, subst, ◌∙◌, inl, inr, Bool, true, false, not, ◌&&◌, some, List, [], ◌∷◌, ◌++◌,
  String, str_eq, eq_iff, eq_refl, if◌then◌else◌, arith, Bool-cases, Option-cases, All, filter, map,
  append-nil,
}
use operator_oss.World.{World, Task, get_task}
use operator_oss.Deps.{
  Edge, edge_to, targets, get_task_deps, is_sibling, distinct, replace_edges, valid_deps,
  set_task_deps, ok,
}

deps-append : (x : String) (es ds : List Edge) → targets x (es ++ ds) ≡ targets x es ++ targets x ds
unfolding targets
deps-append x [] ds = refl
deps-append x (e ∷ es) ds = ground (arith, deps-append x es ds)

deps-kept :
    (task x : String) (es : List Edge)
    → targets x (filter (λ e. not (str_eq e.task_id task)) es)
      ≡ (if str_eq task x then [] else targets x es)
unfolding targets
deps-kept task x [] = ground arith
deps-kept task x (e ∷ es) =
    ground (arith, deps-kept task x es, eq_iff e.task_id task, eq_iff e.task_id x, eq_iff task x)

deps-new :
    (task x : String) (valid : List String)
    → targets x (map (edge_to task) valid) ≡ (if str_eq task x then valid else [])
unfolding targets
deps-new task x [] = ground arith
deps-new task x (v ∷ valid) = ground (arith, deps-new task x valid)

get_task_deps-replace :
    (task i : String) (valid : List String) (es : List Edge)
    → get_task_deps i (replace_edges task valid es)
      ≡ (if str_eq task i then valid else get_task_deps i es)
unfolding replace_edges
get_task_deps-replace task i valid es = ground (
  arith,
  deps-append i (filter (λ e. not (str_eq e.task_id task)) es) (map (edge_to task) valid),
  deps-kept task i es,
  deps-new task i valid,
  append-nil (targets i es),
)

own_deps :
    (task : String) (valid : List String) (es : List Edge)
    → get_task_deps task (replace_edges task valid es) ≡ valid
own_deps task valid es = ground (arith, get_task_deps-replace task task valid es, eq_refl task)

-- A valid dependency: another task of the same project.
abbrev pub IsSibling : String → String → World → String → Type 0
IsSibling task project w id = (is_sibling project w id ≡ true) × (str_eq id task ≡ false)

siblings :
    (task project : String) (w : World) (f : String → Bool) (ids : List String)
    → All
        (IsSibling task project w)
        (filter (is_sibling project w) (filter (λ i. f i && not (str_eq i task)) ids))
siblings task project w f [] = tt
siblings task project w f (i ∷ ids) = elim (Bool-cases (f i && not (str_eq i task))) [
  | inr skip ↦ rw skip (siblings task project w f ids)
  | inl keep ↦ elim (Bool-cases (is_sibling project w i)) [
    | inr none_such ↦ rw (keep, none_such) (siblings task project w f ids)
    | inl found ↦ rw (keep, found) ((found, ground arith), siblings task project w f ids)
  ]
]

-- After a call that succeeds, the task depends on the valid ones of the tasks asked for, each of
-- them another task of its project, and the dependencies of every other task are as they were.
pub set_task_deps_replaces :
    (task i : String) (depends_on : List String) (w : World) (edges new : List Edge)
    → set_task_deps task depends_on w edges ≡ ok new
    → (t : Task) × (get_task task w ≡ some t)
      × All (IsSibling task t.project_id w) (get_task_deps task new)
      × (get_task_deps i new ≡ (
          if str_eq task i
          then valid_deps task t.project_id w depends_on
          else get_task_deps i edges))
unfolding set_task_deps valid_deps
set_task_deps_replaces task i depends_on w edges new h = elim (Option-cases (get_task task w)) [
  | inl n ↦ absurd (ground arith)
  | inr (t, f) ↦
      let valid = valid_deps task t.project_id w depends_on in
      let same : replace_edges task valid edges ≡ new = ground arith in
      (
        t,
        f,
        subst (λ es. All (IsSibling task t.project_id w) (get_task_deps task es)) same
            (subst (All (IsSibling task t.project_id w)) (sym (own_deps task valid edges))
              (siblings task t.project_id w (λ i. not (str_eq i "")) (distinct [] depends_on))),
        ap (get_task_deps i) (sym same) ∙ get_task_deps-replace task i valid edges,
      )
]
