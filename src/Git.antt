-- ===== src/Git.antt =====
-- lib/git.ts: the git commands that the merging of a task gives, with their answers. What a command
-- does to the repository is a parameter, `answers`; the log keeps each command and its answer, newest
-- first. Commands that the source gives at the same time come one after the other here.
pub mod Merge
pub mod Resolve
pub mod Status
pub mod Checkout
pub mod Pruning
pub mod Quiet
pub mod Landing
pub mod Aborting
use operator_oss.Base.{
  ℕ, Bool, true, false, not, ◌&&◌, Option, none, some, List, [], ◌∷◌, String, str_eq, if◌then◌else◌,
  filter,
}
use operator_oss.Sets.{member, add}

-- The first text is the directory.
pub data Command : Type 0 where
  status_of : String → Command
  add_all : String → Command
  commit : String → String → Bool → Command  -- true: with the fallback identity
  commit_merge : String → Bool → Command
  verify_branch : String → String → Command
  head_branch : String → Command
  rev_parse : String → String → Command
  merge_head : String → Command
  count_commits : String → String → String → Command
  is_ancestor : String → String → Command  -- of HEAD
  merge : String → String → String → Command
  merge_ff : String → String → Command
  merge_abort : String → Command
  unmerged : String → Command
  unmerged_diff : String → Command
  check_markers : String → List String → Command
  check_cached : String → Command
  numstat : String → String → String → Command
  worktree_add : String → String → String → Command
  worktree_remove : String → String → Command
  worktree_prune : String → Command
  remove_directory : String → Command
  merge_tree : String → String → String → Command
  commit_tree : String → String → String → String → String → Bool → Command
  update_ref : String → String → String → String → Command
  marker : String → Command
  set_marker : String → Command
  clear_marker : String → Command
  head_parents : String → Command
  reset_hard : String → String → Command

-- Its output, or what a failing command wrote all the same.
pub data Reply : Type 0 where
  out : String → Reply
  failed : String → Reply

pub record Shell (R : Type 0) : Type 0 where
  pub repo : R
  pub log : List (Command × Reply)

-- What reads texts.
pub record Texts : Type 0 where
  pub trim : String → String
  pub lines : String → List String  -- split at line ends, without the empty ones
  pub words : String → List String
  pub number : String → ℕ  -- parseInt, or 0
  pub line_stats : String → ℕ × ℕ
  pub is_oid : String → Bool
  pub first_line : String → String
  pub conflict_info : String → List String  -- the lines between the first and an empty one
  pub path_of : String → Option String  -- after the tab
  pub marker_files : String → List String
  pub binary_files : String → List String
  pub has_marker_note : String → Bool

abbrev pub succeeded : Reply → Bool
succeeded (out s) = true
succeeded (failed s) = false

-- `.catch(() => "")`
abbrev pub or_blank : Reply → String
or_blank (out s) = s
or_blank (failed s) = ""

-- `.catch(stdoutOf)`
abbrev pub output : Reply → String
output (out s) = s
output (failed s) = s

module _ {R : Type 0} (answers : Command → R → Reply × R) where
  unfoldable pub git : Command → Shell R → Reply × Shell R
  git c s =
      let (reply, r) = answers c s.repo in (reply, record { repo = r; log = (c, reply) ∷ s.log })

  unfoldable pub branch_exists : String → String → Shell R → Bool × Shell R
  unfolding git
  branch_exists dir branch s =
      if str_eq branch ""
      then (false, s)
      else (let (reply, s') = git (verify_branch dir branch) s in (succeeded reply, s'))

  unfoldable pub current_branch : String → Shell R → String × Shell R
  unfolding git
  current_branch dir s = let (reply, s') = git (head_branch dir) s in (or_blank reply, s')

  module _ (t : Texts) where
    unfoldable pub is_dirty : String → Shell R → Bool × Shell R
    unfolding git
    is_dirty dir s =
        let (reply, s') = git (status_of dir) s in (not (str_eq (t.trim (or_blank reply)) ""), s')

    -- `none` where it throws.
    unfoldable pub commit_worktree : String → String → Shell R → Option Bool × Shell R
    unfolding git is_dirty
    commit_worktree dir message s =
        let (dirty, s₁) = is_dirty dir s in
        if not dirty
        then (some false, s₁)
        else (let (added, s₂) = git (add_all dir) s₁ in
            if not (succeeded added)
            then (none, s₂)
            else (let (first, s₃) = git (commit dir message false) s₂ in
                if succeeded first
                then (some true, s₃)
                else (let (second, s₄) = git (commit dir message true) s₃ in
                    (if succeeded second then some true else none, s₄))))

    abbrev stats_of : Reply → Option (ℕ × ℕ)
    stats_of (out text) = some (t.line_stats text)
    stats_of (failed text) = none

    unfoldable pub merge_line_stats : String → String → String → Shell R → Option (ℕ × ℕ) × Shell R
    unfolding git
    merge_line_stats dir from to s =
        let (reply, s') = git (numstat dir from to) s in (stats_of reply, s')

    -- Each path once.
    abbrev collect : List String → List String → List String
    collect [] seen = seen
    collect (line ∷ rest) seen = elim (t.path_of line) [
      | none ↦ collect rest seen
      | some p ↦ collect rest (add p seen)
    ]

    unfoldable pub parse_merge_tree_conflicts : String → List String
    parse_merge_tree_conflicts text = collect (t.conflict_info text) []

    unfoldable pub conflict_marker_files : String → List String → Shell R → List String × Shell R
    unfolding git
    conflict_marker_files dir candidates s =
        let (reply, s') = git (check_markers dir candidates) s in
        (t.marker_files (output reply), s')

    unfoldable pub binary_conflict_files : String → List String → Shell R → List String × Shell R
    unfolding git
    binary_conflict_files dir [] s = ([], s)
    binary_conflict_files dir (c ∷ cs) s =
        let (reply, s') = git (unmerged_diff dir) s in
        (filter (λ f. member f (t.binary_files (or_blank reply))) (c ∷ cs), s')
