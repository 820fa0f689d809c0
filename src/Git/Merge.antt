-- ===== src/Git/Merge.antt =====
-- lib/git.ts: mergeTask, which lands a task's branch, with mergeViaTree and mergeIntoTargetWorktree.
use Prim.Native.String.{◌++◌ as append}
use operator_oss.Base.{
  ℕ, Bool, true, false, not, ◌&&◌, Option, none, some, List, [], ◌∷◌, String, str_eq, ◌==◌,
  if◌then◌else◌,
}
use operator_oss.Git.{
  Command, Reply, out, failed, Shell, Texts, succeeded, or_blank, git, branch_exists,
  current_branch, is_dirty, commit_worktree, merge_line_stats, parse_merge_tree_conflicts, merge,
  merge_abort, unmerged, worktree_add, worktree_remove, worktree_prune, remove_directory,
  merge_tree, rev_parse, commit_tree, update_ref, count_commits,
}
use operator_oss.Git.Status.{worktree_merge_status}

pub data MergeError : Type 0 where
  commit_error cannot_prepare merge_conflicts merge_error dirty_tree markers_remain : MergeError

pub record MergeResult : Type 0 where
  pub is_ok : Bool
  pub target_branch : String
  pub committed : Bool
  pub already_merged : Bool
  pub conflicts : Option (List String)
  pub error : Option MergeError
  pub merged_sha : Option String
  pub stats : Option (ℕ × ℕ)

-- What a merge is about.
pub record Landing : Type 0 where
  pub repo_path : String
  pub target : String
  pub work_branch : String
  pub message : String
  pub committed : Bool
  pub merged_sha : Option String

abbrev pub refused : Landing → MergeError → Option (List String) → MergeResult
refused l e conflicts = record {
  is_ok = false;
  target_branch = l.target;
  committed = l.committed;
  already_merged = false;
  conflicts = conflicts;
  error = some e;
  merged_sha = none;
  stats = none;
}

abbrev pub landed : Landing → Option (ℕ × ℕ) → MergeResult
landed l stats = record {
  is_ok = true;
  target_branch = l.target;
  committed = l.committed;
  already_merged = false;
  conflicts = none;
  error = none;
  merged_sha = l.merged_sha;
  stats = stats;
}

-- The result of a merge command that failed, by the unmerged files.
abbrev pub failed_merge : Landing → List String → MergeResult
failed_merge l [] = refused l merge_error none
failed_merge l (f ∷ fs) = refused l merge_conflicts (some (f ∷ fs))

abbrev branch_ref : String → String
branch_ref branch = append "refs/heads/" branch

abbrev non_blank : String → Option String
non_blank s = if str_eq s "" then none else some s

module _ {R : Type 0} (answers : Command → R → Reply × R) (t : Texts) where
  unfoldable pub remove_merge_worktree : String → String → Shell R → Shell R
  unfolding git
  remove_merge_worktree repo_path tmp s =
      let (removed, s₁) = git answers (worktree_remove repo_path tmp) s in
      if succeeded removed
      then s₁
      else (let (gone, s₂) = git answers (remove_directory tmp) s₁ in
          if succeeded gone then (git answers (worktree_prune repo_path) s₂).1 else s₂)

  -- A conflict that merge-tree names; `none` where its output names none.
  abbrev tree_conflict : Landing → List String → Option MergeResult
  tree_conflict l [] = none
  tree_conflict l (f ∷ fs) = some (refused l merge_conflicts (some (f ∷ fs)))

  -- The merged tree as a commit on the target, where its tip has not moved.
  unfoldable pub advance_target : Landing → String → Shell R → Option MergeResult × Shell R
  unfolding git merge_line_stats
  advance_target l tree s =
      let (old, s₁) = git answers (rev_parse l.repo_path (branch_ref l.target)) s in
      let (work, s₂) = git answers (rev_parse l.repo_path l.work_branch) s₁ in
      if not (succeeded old && succeeded work)
      then (none, s₂)
      else (let p = or_blank old in
          let q = or_blank work in
          let (first, s₃) = git answers (commit_tree l.repo_path tree p q l.message false) s₂ in
          let (made, s₄) =
            if succeeded first
            then (first, s₃)
            else git answers (commit_tree l.repo_path tree p q l.message true) s₃ in
          if not (succeeded made)
          then (none, s₄)
          else (let (moved, s₅) =
                git answers (update_ref l.repo_path (branch_ref l.target) (or_blank made) p) s₄ in
              if not (succeeded moved)
              then (none, s₅)
              else (let (stats, s₆) = merge_line_stats answers t l.repo_path p (or_blank made) s₅ in
                  (some (landed l stats), s₆))))

  -- `none` where the merge is left to a worktree.
  unfoldable pub merge_via_tree : Landing → Shell R → Option MergeResult × Shell R
  unfolding git parse_merge_tree_conflicts advance_target
  merge_via_tree l s =
      let (reply, s₁) = git answers (merge_tree l.repo_path l.target l.work_branch) s in
      elim reply [
        | failed text ↦ (
          if str_eq (t.trim text) ""
              then none
              else tree_conflict l (parse_merge_tree_conflicts answers t text),
          s₁,
        )
        | out text ↦
            let tree = t.trim (t.first_line text) in
            if not (t.is_oid tree) then (none, s₁) else advance_target l tree s₁
      ]

  -- The merge command, and the clean-up where it fails.
  unfoldable pub merge_in : String → Landing → Shell R → Bool × List String × Shell R
  unfolding git
  merge_in dir l s =
      let (reply, s₁) = git answers (merge dir l.message l.work_branch) s in
      if succeeded reply
      then (true, [], s₁)
      else (let (files, s₂) = git answers (unmerged dir) s₁ in
          (false, t.lines (or_blank files), (git answers (merge_abort dir) s₂).1))

  unfoldable pub merge_in_worktree : String → Landing → Shell R → MergeResult × Shell R
  unfolding git remove_merge_worktree merge_in merge_line_stats
  merge_in_worktree tmp l s =
      let s₁ = remove_merge_worktree l.repo_path tmp s in
      let (added, s₂) = git answers (worktree_add l.repo_path tmp l.target) s₁ in
      if not (succeeded added)
      then (refused l cannot_prepare none, s₂)
      else (let (done, files, s₃) = merge_in tmp l s₂ in
          if not done
          then (failed_merge l files, remove_merge_worktree l.repo_path tmp s₃)
          else (let (stats, s₄) = merge_line_stats answers t tmp "ORIG_HEAD" "HEAD" s₃ in
              (landed l stats, remove_merge_worktree l.repo_path tmp s₄)))

  unfoldable pub merge_into_target_worktree :
      (String → String) → Landing → Shell R → MergeResult × Shell R
  unfolding merge_via_tree merge_in_worktree
  merge_into_target_worktree tmp_of l s =
      let (fast, s₁) = merge_via_tree l s in
      elim fast [ some result ↦ (result, s₁) | none ↦ merge_in_worktree (tmp_of l.target) l s₁ ]

  -- The target is checked out in the user's own tree.
  unfoldable pub merge_in_place : Landing → Shell R → MergeResult × Shell R
  unfolding git is_dirty merge_in merge_line_stats
  merge_in_place l s =
      let (dirty, s₁) = is_dirty answers t l.repo_path s in
      if dirty
      then (refused l dirty_tree none, s₁)
      else (let (done, files, s₂) = merge_in l.repo_path l s₁ in
          if not done
          then (failed_merge l files, s₂)
          else (let (stats, s₃) = merge_line_stats answers t l.repo_path "ORIG_HEAD" "HEAD" s₂ in
              (landed l stats, s₃)))

  -- A merge that an earlier crash left in the user's own tree is aborted.
  unfoldable pub recover : String → Shell R → Shell R
  unfolding git worktree_merge_status
  recover repo_path s =
      let (status, s₁) = worktree_merge_status answers t repo_path s in
      if status.merge_in_progress then (git answers (merge_abort repo_path) s₁).1 else s₁

  abbrev pub is_zero : Reply → Bool
  is_zero (out text) = t.number text == 0
  is_zero (failed text) = false

  -- With the branch that is checked out.
  unfoldable pub land_at : (String → String) → String → Landing → Shell R → MergeResult × Shell R
  unfolding git merge_into_target_worktree merge_in_place
  land_at tmp_of current l s =
      let (count, s₁) = git answers (count_commits l.repo_path l.target l.work_branch) s in
      if is_zero count
      then (record (landed l none) { already_merged = true }, s₁)
      else if not (str_eq l.target current)
      then merge_into_target_worktree tmp_of l s₁
      else merge_in_place l s₁

  abbrev pub target_of : Bool → String → String → String
  target_of there base current = if there then base else if str_eq current "" then base else current

  -- Holding the repository's lock.
  unfoldable pub land : (String → String) → String → Landing → Shell R → MergeResult × Shell R
  unfolding recover current_branch branch_exists land_at
  land tmp_of base l s =
      let s₁ = recover l.repo_path s in
      let (current, s₂) = current_branch answers l.repo_path s₁ in
      let (there, s₃) = branch_exists answers l.repo_path base s₂ in
      land_at tmp_of current (record l { target = target_of there base current }) s₃

  -- `during_lock` is what others do to the repository while this one waits for its lock.
  unfoldable pub merge_task :
      (String → String)
      → (R → R)
      → String
      → String
      → String
      → String
      → String
      → Shell R
      → MergeResult × Shell R
  unfolding git commit_worktree land
  merge_task tmp_of during_lock repo_path dir work base message s =
      let (saved, s₁) = commit_worktree answers t dir message s in
      elim saved [
        | none ↦ (
          refused
              (record {
                repo_path = repo_path;
                target = base;
                work_branch = work;
                message = message;
                committed = false;
                merged_sha = none;
              })
              commit_error none,
          s₁,
        )
        | some committed ↦
            let (sha, s₂) = git answers (rev_parse repo_path work) s₁ in
            land tmp_of base
              (record {
                repo_path = repo_path;
                target = base;
                work_branch = work;
                message = message;
                committed = committed;
                merged_sha = non_blank (or_blank sha);
              })
              (record s₂ { repo = during_lock s₂.repo })
      ]
