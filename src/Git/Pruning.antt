-- ===== src/Git/Pruning.antt =====
-- lib/git.ts: worktreePruneSafety where git gives no answer.
use operator_oss.Base.{◌≡◌, refl, inl, inr, Bool-cases, str_eq, true, false, String, arith}
use operator_oss.Git.{
  Command, Reply, Shell, Texts, succeeded, or_blank, git, branch_exists, is_dirty,
}
use operator_oss.Git.Status.{worktree_prune_safety}

or_blank_failed : (reply : Reply) → succeeded reply ≡ false → or_blank reply ≡ ""
or_blank_failed (Reply.out text) h = cc
or_blank_failed (Reply.failed text) h = refl

module _ {R : Type 0} (answers : Command → R → Reply × R) (t : Texts) where
  unread_is_clean :
      (dir : String) (s : Shell R)
      → t.trim "" ≡ ""
      → ((c : Command) (r : R) → succeeded (answers c r).0 ≡ false)
      → (is_dirty answers t dir s).0 ≡ false
  unfolding is_dirty git
  unread_is_clean dir s e h =
      rw
        (
          or_blank_failed (answers (Command.status_of dir) s.repo).0
              (h (Command.status_of dir) s.repo),
          e,
        )
        refl

  unread_is_missing :
      (dir branch : String) (s : Shell R)
      → ((c : Command) (r : R) → succeeded (answers c r).0 ≡ false)
      → (branch_exists answers dir branch s).0 ≡ false
  unfolding branch_exists git
  unread_is_missing dir branch s h = ground (arith, h (Command.verify_branch dir branch) s.repo)

  -- Where each git command fails, a worktree passes as safe to remove, as one with no changes and no
  -- commits of its own; an empty text is trimmed to an empty one.
  pub worktree_prune_safety_fails_safe :
      (repo_path dir work base : String) (s : Shell R)
      → t.trim "" ≡ ""
      → ((c : Command) (r : R) → succeeded (answers c r).0 ≡ false)
      → (worktree_prune_safety answers t repo_path dir work base s).0.safe ≡ true
  unfolding worktree_prune_safety
  worktree_prune_safety_fails_safe repo_path dir work base s e h =
      elim (Bool-cases (str_eq dir "")) [
        | inl none_there ↦ rw (none_there, worktree_prune_safety) refl
        | inr there ↦
            let (dirty, s₁) = is_dirty answers t dir s in
            rw
              (
                there,
                unread_is_clean dir s e h,
                unread_is_missing repo_path work s₁ h,
                worktree_prune_safety,
              )
              refl
      ]
