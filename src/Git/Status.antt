-- ===== src/Git/Status.antt =====
-- lib/git.ts: the questions about a worktree (worktreeMergeStatus, worktreePruneSafety,
-- worktreeSyncStatus) and the fast-forward. The words of a reason are left out.
use operator_oss.Base.{
  ℕ, Bool, true, false, not, ◌&&◌, ◌||◌, List, [], ◌∷◌, String, str_eq, ◌==◌, if◌then◌else◌, filter,
}
use operator_oss.Sets.{member}
use operator_oss.Git.{
  Command, Reply, out, failed, Shell, Texts, succeeded, or_blank, git, branch_exists, is_dirty,
  parse_merge_tree_conflicts, conflict_marker_files, binary_conflict_files, merge_head, unmerged,
  count_commits, rev_parse, merge_tree, merge_ff,
}

pub record MergeStatus : Type 0 where
  pub merge_in_progress : Bool
  pub unresolved : List String

pub record PruneSafety : Type 0 where
  pub safe : Bool
  pub is_dirty : Bool
  pub ahead : ℕ

pub record SyncStatus : Type 0 where
  pub behind : ℕ
  pub ahead : ℕ
  pub is_dirty : Bool
  pub can_fast_forward : Bool
  pub clean : Bool
  pub conflicts : List String
  pub base_tip : String

abbrev is_empty : List String → Bool
is_empty [] = true
is_empty (x ∷ xs) = false

abbrev no_sync : SyncStatus
no_sync = record {
  behind = 0;
  ahead = 0;
  is_dirty = false;
  can_fast_forward = false;
  clean = true;
  conflicts = [];
  base_tip = "";
}

module _ {R : Type 0} (answers : Command → R → Reply × R) (t : Texts) where
  unfoldable pub worktree_merge_status : String → Shell R → MergeStatus × Shell R
  unfolding git conflict_marker_files binary_conflict_files
  worktree_merge_status dir s =
      if str_eq dir ""
      then (record { merge_in_progress = false; unresolved = [] }, s)
      else (let (head, s₁) = git answers (merge_head dir) s in
          let (reply, s₂) = git answers (unmerged dir) s₁ in
          let index = t.lines (or_blank reply) in
          if is_empty index
          then (record { merge_in_progress = succeeded head; unresolved = [] }, s₂)
          else (let (marked, s₃) = conflict_marker_files answers t dir index s₂ in
              let (binaries, s₄) = binary_conflict_files answers t dir index s₃ in
              (
                record {
                  merge_in_progress = succeeded head;
                  unresolved = filter (λ f. member f marked || member f binaries) index;
                },
                s₄,
              )))

  -- `.catch(() => "0")`
  abbrev count_of : Reply → ℕ
  count_of (out text) = t.number text
  count_of (failed text) = 0

  abbrev range_count : String → String → String → Shell R → ℕ × Shell R
  range_count dir from to s =
      let (reply, s') = git answers (count_commits dir from to) s in (count_of reply, s')

  unfoldable pub worktree_prune_safety :
      String → String → String → String → Shell R → PruneSafety × Shell R
  unfolding git branch_exists is_dirty
  worktree_prune_safety repo_path dir work base s =
      if str_eq dir ""
      then (record { safe = true; is_dirty = false; ahead = 0 }, s)
      else (let (dirty, s₁) = is_dirty answers t dir s in
          let (work_there, s₂) = branch_exists answers repo_path work s₁ in
          let (base_there, s₃) =
            if work_there then branch_exists answers repo_path base s₂ else (false, s₂) in
          let (ahead, s₄) = if base_there then range_count repo_path base work s₃ else (0, s₃) in
          (record { safe = not dirty && ahead == 0; is_dirty = dirty; ahead = ahead }, s₄))

  unfoldable pub predict_merge_conflicts :
      String → String → String → Shell R → List String × Shell R
  unfolding git parse_merge_tree_conflicts
  predict_merge_conflicts repo_path base work s =
      let (reply, s') = git answers (merge_tree repo_path base work) s in
      (
        elim reply [
          | out text ↦ []
          | failed text ↦ if str_eq text "" then [] else parse_merge_tree_conflicts answers t text
        ],
        s',
      )

  unfoldable pub worktree_sync_status :
      String → String → String → String → Shell R → SyncStatus × Shell R
  unfolding git branch_exists is_dirty predict_merge_conflicts
  worktree_sync_status repo_path dir work base s =
      if str_eq dir "" || str_eq work ""
      then (no_sync, s)
      else (let (base_there, s₁) = branch_exists answers repo_path base s in
          let (work_there, s₂) = branch_exists answers repo_path work s₁ in
          if not base_there || not work_there
          then (no_sync, s₂)
          else (let (tip, s₃) = git answers (rev_parse repo_path base) s₂ in
              let (behind, s₄) = range_count repo_path work base s₃ in
              let (ahead, s₅) = range_count repo_path base work s₄ in
              let (dirty, s₆) = is_dirty answers t dir s₅ in
              let known : SyncStatus = record {
                behind = behind;
                ahead = ahead;
                is_dirty = dirty;
                can_fast_forward = false;
                clean = true;
                conflicts = [];
                base_tip = or_blank tip;
              } in
              if behind == 0
              then (known, s₆)
              else if ahead == 0 && not dirty
              then (record known { can_fast_forward = true }, s₆)
              else (let (conflicts, s₇) = predict_merge_conflicts repo_path base work s₆ in
                  (record known { clean = is_empty conflicts; conflicts = conflicts }, s₇))))

  unfoldable pub fast_forward_worktree : String → String → Shell R → Bool × Shell R
  unfolding git
  fast_forward_worktree dir base s =
      let (reply, s') = git answers (merge_ff dir base) s in (succeeded reply, s')
