-- ===== src/Deps.antt =====
-- lib/store.ts: the dependencies between tasks (getTaskDeps, setTaskDeps). The rows of
-- task_dependencies are a list; the tasks are those of World. The time is left out of the rows.
pub mod Search
pub mod Replacing
pub mod Acyclic
use operator_oss.Base.{
  ℕ, zero, suc, ◌+◌, Bool, true, false, not, ◌&&◌, Option, none, some, List, [], ◌∷◌, ◌++◌, String,
  str_eq, if◌then◌else◌, filter, length, map,
}
use operator_oss.Sets.{member, add}
use operator_oss.World.{World, get_task}

pub record Edge : Type 0 where
  pub task_id : String
  pub depends_on_id : String

unfoldable pub targets : String → List Edge → List String
targets id [] = []
targets id (e ∷ es) =
    let rest = targets id es in if str_eq e.task_id id then e.depends_on_id ∷ rest else rest

abbrev pub get_task_deps : String → List Edge → List String
get_task_deps id edges = targets id edges

-- [...new Set(ids)]
unfoldable pub distinct : List String → List String → List String
distinct seen [] = []
distinct seen (i ∷ is) =
    let rest = distinct (add i seen) is in if member i seen then rest else i ∷ rest

-- A task of the same project.
unfoldable pub is_sibling : String → World → String → Bool
is_sibling project w id = elim (get_task id w) [
  | none ↦ false
  | some t ↦ str_eq t.project_id project
]

unfoldable pub valid_deps : String → String → World → List String → List String
unfolding distinct
valid_deps task project w ids =
    filter (is_sibling project w)
      (filter (λ i. not (str_eq i "") && not (str_eq i task)) (distinct [] ids))

-- `adj.get(cur) ?? []`: the task's own edges are those that it is to have.
unfoldable pub adjacent : String → List String → List Edge → String → List String
adjacent task valid edges cur = if str_eq task cur then valid else targets cur edges

-- The stack's top is the first element.
unfoldable pub push_all : List String → List String → List String
push_all [] stack = stack
push_all (n ∷ ns) stack = push_all ns (n ∷ stack)

pub data Verdict : Type 0 where
  free cycle out_of_fuel : Verdict

unfoldable pub search : String → List String → List Edge → ℕ → List String → List String → Verdict
search task valid edges zero seen stack = out_of_fuel
search task valid edges (suc fuel) seen [] = free
search task valid edges (suc fuel) seen (cur ∷ stack) = elim (str_eq cur task) [
  | true ↦ cycle
  | false ↦ elim (member cur seen) [
    | true ↦ search task valid edges fuel seen stack
    | false ↦
        search task valid edges fuel (add cur seen) (push_all (adjacent task valid edges cur) stack)
  ]
]

pub data Error : Type 0 where
  task_not_found dependency_cycle no_fuel : Error

pub data Result : Type 0 where
  ok : List Edge → Result
  err : Error → Result

abbrev pub edge_to : String → String → Edge
edge_to task id = record { task_id = task; depends_on_id = id }

unfoldable pub replace_edges : String → List String → List Edge → List Edge
replace_edges task valid edges =
    filter (λ e. not (str_eq e.task_id task)) edges ++ map (edge_to task) valid

unfoldable pub set_task_deps : String → List String → World → List Edge → Result
unfolding valid_deps search replace_edges
set_task_deps task depends_on w edges = elim (get_task task w) [
  | none ↦ err task_not_found
  | some t ↦
      let valid = valid_deps task t.project_id w depends_on in
      elim (search task valid edges (suc (length valid + length edges)) [] valid) [
        | cycle ↦ err dependency_cycle
        | out_of_fuel ↦ err no_fuel
        | free ↦ ok (replace_edges task valid edges)
      ]
]
