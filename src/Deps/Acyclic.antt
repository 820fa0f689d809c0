-- ===== src/Deps/Acyclic.antt =====
-- lib/store.ts: setTaskDeps refuses exactly the dependencies that close a cycle.
use operator_oss.Base.{
  ℕ, zero, suc, ◌+◌, ◌≡◌, ◌⊎◌, refl, subst, sym, ◌∙◌, inl, inr, true, false, not, ◌||◌, ◌&&◌, none,
  some, List, [], ◌∷◌, ◌++◌, String, str_eq, eq_iff, eq_refl, if◌then◌else◌, length, arith,
  Bool-cases, Option-cases, All, filter, map,
}
use operator_oss.Sets.{member, add}
use operator_oss.World.{World, Task, get_task}
use operator_oss.Deps.{
  Edge, edge_to, targets, adjacent, push_all, Verdict, free, cycle, out_of_fuel, search,
  replace_edges, valid_deps, set_task_deps, ok, err, task_not_found, dependency_cycle,
}
use operator_oss.Deps.Search.{Within, IsClosure, search-IsClosure, search_ends, unseen_none}

abbrev pub HasEdge : List Edge → String → String → Type 0
HasEdge es x y = member y (targets x es) ≡ true

-- A chain of one or more edges.
pub data Depends (es : List Edge) : String → String → Type 0 where
  direct : {x y : String} → HasEdge es x y → Depends es x y
  through : {x y z : String} → HasEdge es x y → Depends es y z → Depends es x z

abbrev pub IsAcyclic : List Edge → Type 0
IsAcyclic es = (x : String) → ¬ Depends es x x

Verdict-cases : (v : Verdict) → (v ≡ free) ⊎ ((v ≡ cycle) ⊎ (v ≡ out_of_fuel))
Verdict-cases free = inl refl
Verdict-cases cycle = inr (inl refl)
Verdict-cases out_of_fuel = inr (inr refl)

targets-append :
    (x y : String) (es ds : List Edge)
    → member y (targets x (es ++ ds)) ≡ (member y (targets x es) || member y (targets x ds))
unfolding targets member
targets-append x y [] ds = refl
targets-append x y (e ∷ es) ds = ground (arith, targets-append x y es ds)

targets-kept :
    (task x y : String) (es : List Edge)
    → member y (targets x (filter (λ e. not (str_eq e.task_id task)) es))
      ≡ (if str_eq task x then false else member y (targets x es))
unfolding targets member
targets-kept task x y [] = ground arith
targets-kept task x y (e ∷ es) =
    ground
      (arith, targets-kept task x y es, eq_iff e.task_id task, eq_iff e.task_id x, eq_iff task x)

targets-new :
    (task x y : String) (valid : List String)
    → member y (targets x (map (edge_to task) valid)) ≡ (str_eq task x && member y valid)
unfolding targets member
targets-new task x y [] = ground arith
targets-new task x y (v ∷ valid) = ground (arith, targets-new task x y valid)

HasEdge-replace :
    (task : String) (valid : List String) (es : List Edge) (x y : String)
    → member y (targets x (replace_edges task valid es)) ≡ member y (adjacent task valid es x)
unfolding replace_edges adjacent
HasEdge-replace task valid es x y = ground (
  arith,
  targets-append x y (filter (λ e. not (str_eq e.task_id task)) es) (map (edge_to task) valid),
  targets-kept task x y es,
  targets-new task x y valid,
)

Within-member :
    (s is : List String) (i : String) → Within s is → member i is ≡ true → member i s ≡ true
unfolding member
Within-member s [] i h m = absurd (cc)
Within-member s (j ∷ is) i (h, hs) m = elim (Bool-cases (str_eq j i)) [
  | inl e ↦ subst (λ k. member k s ≡ true) ((eq_iff j i).0 e) h
  | inr e ↦ Within-member s is i hs (ground arith)
]

module _ (task : String) (valid : List String) (edges : List Edge) where
  seen_edge :
      (s : List String) (x z : String)
      → IsClosure task valid edges [] valid s
      → member x s ≡ true
      → HasEdge (replace_edges task valid edges) x z
      → (member z s ≡ true) × (str_eq x task ≡ false) × HasEdge edges x z
  unfolding member adjacent
  seen_edge s x z c m e = elim (c.closed x m) [
    | inl none_yet ↦ absurd (cc)
    | inr (other, within) ↦
        let next : member z (adjacent task valid edges x) ≡ true =
          sym (HasEdge-replace task valid edges x z) ∙ e in
        (
          Within-member s (adjacent task valid edges x) z within next,
          other,
          ground (arith, next, other, eq_iff task x, eq_iff x task),
        )
  ]

  -- From a task that the search has seen, a chain in the new graph stays in what it has seen, away
  -- from the task, and is a chain in the old graph.
  seen_chain :
      (s : List String) (x y : String)
      → IsClosure task valid edges [] valid s
      → member x s ≡ true
      → Depends (replace_edges task valid edges) x y
      → (member y s ≡ true) × (str_eq x task ≡ false) × Depends edges x y
  seen_chain s x y c m (direct e) =
      let edge = seen_edge s x y c m e in (edge.0, edge.1, direct edge.2)
  seen_chain s x y c m (through {y = z} e d) =
      let edge = seen_edge s x z c m e in
      let rest = seen_chain s z y c edge.0 d in (rest.0, edge.1, through edge.2 rest.2)

  new_edge :
      (s : List String) (x z : String)
      → IsClosure task valid edges [] valid s
      → HasEdge (replace_edges task valid edges) x z
      → (member z s ≡ true) ⊎ HasEdge edges x z
  unfolding adjacent
  new_edge s x z c e =
      let next : member z (adjacent task valid edges x) ≡ true =
        sym (HasEdge-replace task valid edges x z) ∙ e in
      elim (Bool-cases (str_eq task x)) [
        | inl own ↦ inl (Within-member s valid z c.covers (ground (arith, own, next)))
        | inr other ↦ inr (ground (arith, other, next))
      ]

  -- A chain in the new graph is one in the old graph, or ends in what the search has seen.
  new_chain :
      (s : List String) (x y : String)
      → IsClosure task valid edges [] valid s
      → Depends (replace_edges task valid edges) x y
      → (member y s ≡ true) ⊎ Depends edges x y
  new_chain s x y c (direct e) = elim (new_edge s x y c e) [
    | inl m ↦ inl m
    | inr h ↦ inr (direct h)
  ]
  new_chain s x y c (through {y = z} e d) = elim (new_edge s x z c e) [
    | inl m ↦ inl (seen_chain s z y c m d).0
    | inr h ↦ elim (new_chain s z y c d) [ inl m ↦ inl m | inr r ↦ inr (through h r) ]
  ]

  new_graph-IsAcyclic :
      (s : List String)
      → IsClosure task valid edges [] valid s
      → IsAcyclic edges
      → IsAcyclic (replace_edges task valid edges)
  new_graph-IsAcyclic s c old x d = elim (new_chain s x x c d) [
    | inl m ↦ old x (seen_chain s x x c m d).2
    | inr r ↦ old x r
  ]

  abbrev FromTask : List String → Type 0
  FromTask = All (Depends (replace_edges task valid edges) task)

  FromTask-push_all :
      (ns stack : List String) → FromTask ns → FromTask stack → FromTask (push_all ns stack)
  unfolding push_all
  FromTask-push_all [] stack h k = k
  FromTask-push_all (n ∷ ns) stack (h, hs) k = FromTask-push_all ns (n ∷ stack) hs (h, k)

  reached_next :
      (x : String) (ns : List String)
      → ((y : String) → member y ns ≡ true → HasEdge (replace_edges task valid edges) x y)
      → ((y : String)
          → HasEdge (replace_edges task valid edges) x y
          → Depends (replace_edges task valid edges) task y)
      → FromTask ns
  unfolding member
  reached_next x [] h f = tt
  reached_next x (n ∷ ns) h f =
      (f n (h n (ground (arith, eq_refl n))), reached_next x ns (λ y m. h y (ground (arith, m))) f)

  Depends-last :
      (x y z : String)
      → Depends (replace_edges task valid edges) x y
      → HasEdge (replace_edges task valid edges) y z
      → Depends (replace_edges task valid edges) x z
  Depends-last x y z (direct e) f = through e (direct f)
  Depends-last x y z (through {y = v} e d) f = through e (Depends-last v y z d f)

  search_finds :
      (fuel : ℕ) (seen stack : List String)
      → FromTask stack
      → search task valid edges fuel seen stack ≡ cycle
      → Depends (replace_edges task valid edges) task task
  unfolding search
  search_finds zero seen stack h e = absurd (cc)
  search_finds (suc fuel) seen [] h e = absurd (cc)
  search_finds (suc fuel) seen (cur ∷ stack) (h, hs) e = elim (Bool-cases (str_eq cur task)) [
    | inl same ↦
        subst (λ k. Depends (replace_edges task valid edges) task k) ((eq_iff cur task).0 same) h
    | inr other ↦ elim (Bool-cases (member cur seen)) [
      | inl old ↦ search_finds fuel seen stack hs (rw (other, old, search) at e)
      | inr new ↦
          search_finds fuel (add cur seen) (push_all (adjacent task valid edges cur) stack)
            (FromTask-push_all (adjacent task valid edges cur) stack
              (reached_next cur (adjacent task valid edges cur)
                (λ y m. HasEdge-replace task valid edges cur y ∙ m)
                (λ y f. Depends-last task cur y h f))
              hs)
            (rw (other, new, search) at e)
    ]
  ]

  valid-FromTask : FromTask valid
  unfolding adjacent
  valid-FromTask =
      reached_next task valid
        (λ y m. HasEdge-replace task valid edges task y ∙ ground (arith, m, eq_refl task))
        (λ y e. direct e)

-- setTaskDeps decides, on an acyclic table: for a task that exists, the new graph has the task's edges
-- replaced by the valid ones of those asked for. Where that graph has no cycle it becomes the table;
-- where the task depends on itself in it, the call fails. The search never runs out of its fuel.
pub set_task_deps_decides :
    (task : String) (depends_on : List String) (w : World) (edges : List Edge)
    → IsAcyclic edges
    → ((get_task task w ≡ none) × (set_task_deps task depends_on w edges ≡ err task_not_found))
      ⊎ ((t : Task) × (new : List Edge) × (get_task task w ≡ some t)
          × (new ≡ replace_edges task (valid_deps task t.project_id w depends_on) edges)
          × (((set_task_deps task depends_on w edges ≡ ok new) × IsAcyclic new)
              ⊎ ((set_task_deps task depends_on w edges ≡ err dependency_cycle)
                  × Depends new task task)))
unfolding set_task_deps
set_task_deps_decides task depends_on w edges old = elim (Option-cases (get_task task w)) [
  | inl n ↦ inl (n, ground arith)
  | inr (t, f) ↦
      let valid = valid_deps task t.project_id w depends_on in
      let fuel = suc (length valid + length edges) in
      inr (
        t,
        replace_edges task valid edges,
        f,
        refl,
        elim (Verdict-cases (search task valid edges fuel [] valid)) [
          | inl found ↦
              let (s, c) = search-IsClosure task valid edges fuel [] valid found in
              inl (ground arith, new_graph-IsAcyclic task valid edges s c old)
          | inr (inl found) ↦ inr (
            ground arith,
            search_finds task valid edges fuel [] valid (valid-FromTask task valid edges) found,
          )
          | inr (inr stuck) ↦
              absurd (
                search_ends task valid edges fuel [] valid (omega (arith, unseen_none edges)) stuck)
        ],
      )
]
