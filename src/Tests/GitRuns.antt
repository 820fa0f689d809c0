-- ===== src/Tests/GitRuns.antt =====
-- lib/git.ts on a repository whose git answers in a fixed way.
use operator_oss.Base.{◌≡◌, ◌⊎◌, ◌+◌, refl, ℕ, true, false, [], ◌∷◌, str_eq, none, if◌then◌else◌}
use operator_oss.Git.{Command, Reply, out, failed, Shell, Texts, git, is_dirty}
use operator_oss.Git.Status.{worktree_merge_status, worktree_prune_safety}
use operator_oss.Git.Merge.{Landing}
use operator_oss.Git.Merge
use operator_oss.Git.Resolve.{abort_worktree_merge, discard, unwind}
use operator_oss.Git.Checkout.{checkout_log}
use operator_oss.Git.Aborting.{Undone, abort_worktree_merge_undoes}
use operator_oss.Git.Pruning.{worktree_prune_safety_fails_safe}

abbrev texts : Texts
texts = record {
  trim = λ s. s;
  lines = λ s. [];
  words = λ s. if str_eq s "h m o" then "h" ∷ "m" ∷ "o" ∷ [] else [];
  number = λ s. 1;
  line_stats = λ s. (1, 0);
  is_oid = λ s. false;
  first_line = λ s. s;
  conflict_info = λ s. [];
  path_of = λ s. none;
  marker_files = λ s. [];
  binary_files = λ s. [];
  has_marker_note = λ s. false;
}

-- No merge is paused, and the marker's merge is at HEAD; main is checked out.
abbrev reply_to : Command → Reply
reply_to (Command.merge_head d) = failed ""
reply_to (Command.marker d) = out "m"
reply_to (Command.head_parents d) = out "h m o"
reply_to (Command.head_branch d) = out "main"
reply_to _ = out ""

abbrev answers : Command → ℕ → Reply × ℕ
answers c r = (reply_to c, r + 1)

abbrev shell : Shell ℕ
shell = record { repo = 0; log = [] }

abort_worktree_merge_undoes_example :
    ((str_eq "/t" "" ≡ true) × (abort_worktree_merge answers texts "/t" shell ≡ shell))
    ⊎ ((checkout_log "/t" (worktree_merge_status answers texts "/t" shell).1.log
          ≡ checkout_log "/t" [])
        × Undone answers texts "/t"
            (worktree_merge_status answers texts "/t" shell).0.merge_in_progress
            (worktree_merge_status answers texts "/t" shell).1.log
            (abort_worktree_merge answers texts "/t" shell).log)
abort_worktree_merge_undoes_example = abort_worktree_merge_undoes answers texts "/t" shell

our_merge_reset :
    checkout_log "/t" (abort_worktree_merge answers texts "/t" shell).log
    ≡ (Command.clear_marker "/t", out "")
      ∷ (Command.reset_hard "/t" "m", out "")
      ∷ (Command.status_of "/t", out "")
      ∷ []
unfolding abort_worktree_merge worktree_merge_status discard unwind git is_dirty checkout_log
our_merge_reset = refl

abbrev landing : Landing
landing = record {
  repo_path = "/r";
  target = "";
  work_branch = "orch/a";
  message = "Merge";
  committed = true;
  merged_sha = none;
}

abbrev silent : Command → ℕ → Reply × ℕ
silent c r = (failed "", r)

worktree_prune_safety_fails_safe_example :
    (worktree_prune_safety silent texts "/r" "/t" "orch/a" "main" shell).0.safe ≡ true
worktree_prune_safety_fails_safe_example =
    worktree_prune_safety_fails_safe silent texts "/r" "/t" "orch/a" "main" shell refl (λ c r. refl)
