-- ===== src/Git/Resolve.antt =====
-- lib/git.ts: the resolving of conflicts in a task's worktree (prepareWorktreeMerge, abortWorktreeMerge,
-- completeWorktreeMerge).
use operator_oss.Base.{
  Bool, true, false, not, ◌&&◌, Option, none, some, List, [], ◌∷◌, String, str_eq, if◌then◌else◌,
  filter, is_some,
}
use operator_oss.Sets.{member}
use operator_oss.Git.{
  Command, Reply, Shell, Texts, succeeded, or_blank, output, git, branch_exists, is_dirty,
  commit_worktree, binary_conflict_files, is_ancestor, merge, merge_abort, unmerged, add_all,
  check_cached, commit_merge, marker, set_marker, clear_marker, head_parents, reset_hard,
}
use operator_oss.Git.Status.{MergeStatus, worktree_merge_status}
use operator_oss.Git.Merge.{MergeResult, markers_remain, refused, merge_task}

pub data PrepareError : Type 0 where
  no_worktree no_base commit_failed merge_failed : PrepareError

pub record PrepareResult : Type 0 where
  pub clean : Bool
  pub conflicts : List String
  pub binary_conflicts : List String
  pub error : Option PrepareError  -- none: `ok`

abbrev fail : PrepareError → PrepareResult
fail e = record { clean = false; conflicts = []; binary_conflicts = []; error = some e }

abbrev merged_clean : PrepareResult
merged_clean = record { clean = true; conflicts = []; binary_conflicts = []; error = none }

abbrev in_conflict : List String → List String → PrepareResult
in_conflict files binaries = record {
  clean = false;
  conflicts = filter (λ f. not (member f binaries)) files;
  binary_conflicts = binaries;
  error = none;
}

-- A merge commit whose first parent is the marker: the commit, then its parents.
abbrev pub is_our_merge : String → List String → Bool
is_our_merge m (head ∷ first ∷ second ∷ rest) = str_eq first m
is_our_merge m _ = false

module _ {R : Type 0} (answers : Command → R → Reply × R) (t : Texts) where
  -- After the marker is set.
  unfoldable pub try_merge : String → String → String → Shell R → PrepareResult × Shell R
  unfolding git binary_conflict_files
  try_merge dir base message s =
      let (done, s₁) = git answers (merge dir message base) s in
      if succeeded done
      then (merged_clean, s₁)
      else (let (reply, s₂) = git answers (unmerged dir) s₁ in
          elim (t.lines (or_blank reply)) [
            | [] ↦ (
              fail merge_failed,
              (git answers (clear_marker dir) (git answers (merge_abort dir) s₂).1).1,
            )
            | f ∷ fs ↦
                let (binaries, s₃) = binary_conflict_files answers t dir (f ∷ fs) s₂ in
                (in_conflict (f ∷ fs) binaries, s₃)
          ])

  unfoldable pub prepare_worktree_merge :
      String → String → String → String → Shell R → PrepareResult × Shell R
  unfolding git branch_exists worktree_merge_status binary_conflict_files commit_worktree try_merge
  prepare_worktree_merge repo_path dir base message s =
      if str_eq dir ""
      then (fail no_worktree, s)
      else (let (there, s₁) = branch_exists answers repo_path base s in
          if not there
          then (fail no_base, s₁)
          else (let (pre, s₂) = worktree_merge_status answers t dir s₁ in
              if pre.merge_in_progress
              then (let (binaries, s₃) = binary_conflict_files answers t dir pre.unresolved s₂ in
                  (in_conflict pre.unresolved binaries, s₃))
              else (let (synced, s₃) = git answers (is_ancestor dir base) s₂ in
                  if succeeded synced
                  then (merged_clean, s₃)
                  else (let (saved, s₄) = commit_worktree answers t dir message s₃ in
                      if is_some saved
                      then try_merge dir base message (git answers (set_marker dir) s₄).1
                      else (fail commit_failed, s₄)))))

  -- Of a merge that the marker `m` stands for.
  unfoldable pub unwind : String → String → Shell R → Shell R
  unfolding git is_dirty
  unwind dir m s =
      let (reply, s₁) = git answers (head_parents dir) s in
      let (dirty, s₂) = is_dirty answers t dir s₁ in
      let s₃ =
        if is_our_merge m (t.words (or_blank reply)) && not dirty
        then (git answers (reset_hard dir m) s₂).1
        else s₂ in
      (git answers (clear_marker dir) s₃).1

  -- By the state of the worktree: a paused merge, or one that was committed.
  unfoldable pub discard : String → MergeStatus → Shell R → Shell R
  unfolding git unwind
  discard dir status s =
      if status.merge_in_progress
      then (git answers (clear_marker dir) (git answers (merge_abort dir) s).1).1
      else (let (reply, s₁) = git answers (marker dir) s in
          let m = t.trim (or_blank reply) in if str_eq m "" then s₁ else unwind dir m s₁)

  unfoldable pub abort_worktree_merge : String → Shell R → Shell R
  unfolding worktree_merge_status discard
  abort_worktree_merge dir s =
      if str_eq dir ""
      then s
      else (let (status, s₁) = worktree_merge_status answers t dir s in discard dir status s₁)

  -- The paused merge is committed; `false` where that throws.
  unfoldable pub commit_resolution : String → Shell R → Bool × Shell R
  unfolding git
  commit_resolution dir s =
      let (first, s₁) = git answers (commit_merge dir false) s in
      if succeeded first
      then (true, s₁)
      else (let (second, s₂) = git answers (commit_merge dir true) s₁ in (succeeded second, s₂))

  abbrev spend_marker : String → MergeResult × Shell R → MergeResult × Shell R
  spend_marker dir (result, s) =
      (result, if result.is_ok then (git answers (clear_marker dir) s).1 else s)

  -- `none` where the commit of the paused merge throws.
  unfoldable pub complete_worktree_merge :
      (String → String)
      → (R → R)
      → String
      → String
      → String
      → String
      → String
      → Shell R
      → Option MergeResult × Shell R
  unfolding git worktree_merge_status commit_resolution merge_task
  complete_worktree_merge tmp_of during_lock repo_path dir work base message s =
      let (status, s₁) = worktree_merge_status answers t dir s in
      let s₂ = (git answers (add_all dir) s₁).1 in
      let (check, s₃) = git answers (check_cached dir) s₂ in
      if t.has_marker_note (output check)
      then (
        some (
            refused
              (record {
                repo_path = repo_path;
                target = base;
                work_branch = work;
                message = message;
                committed = false;
                merged_sha = none;
              })
              markers_remain none),
        s₃,
      )
      else (let (committed, s₄) =
            if status.merge_in_progress then commit_resolution dir s₃ else (true, s₃) in
          if not committed
          then (none, s₄)
          else (let (result, s₅) =
                spend_marker dir
                  (merge_task answers t tmp_of during_lock repo_path dir work base message s₄) in
              (some result, s₅)))
