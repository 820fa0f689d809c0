-- ===== src/Git/Quiet.antt =====
-- lib/git.ts: what of a merge leaves a checkout alone, where it works elsewhere.
use operator_oss.Base.{
  ◌≡◌, refl, ◌∙◌, inl, inr, false, List, String, str_eq, Bool-cases, Option-cases, arith,
}
use operator_oss.Git.{Command, Reply, Shell, Texts, succeeded, git, merge_line_stats}
use operator_oss.Git.Merge.{
  Landing, remove_merge_worktree, advance_target, merge_via_tree, merge_in, merge_in_worktree,
  merge_into_target_worktree,
}
use operator_oss.Git.Checkout.{checkout_log}

module _ {R : Type 0} (answers : Command → R → Reply × R) (t : Texts) (d : String) where
  abbrev pub seen : Shell R → List (Command × Reply)
  seen s = checkout_log d s.log

  pub remove_merge_worktree_quiet :
      (repo_path tmp : String) (s : Shell R)
      → seen (remove_merge_worktree answers t repo_path tmp s) ≡ seen s
  unfolding remove_merge_worktree git checkout_log
  remove_merge_worktree_quiet repo_path tmp s = ground arith

  pub advance_target_quiet :
      (l : Landing) (tree : String) (s : Shell R)
      → seen (advance_target answers t l tree s).1 ≡ seen s
  unfolding advance_target git checkout_log merge_line_stats
  advance_target_quiet l tree s = ground arith

  pub merge_via_tree_quiet :
      (l : Landing) (s : Shell R) → seen (merge_via_tree answers t l s).1 ≡ seen s
  unfolding merge_via_tree git checkout_log
  merge_via_tree_quiet l s = ground arith

  pub merge_in_quiet :
      (dir : String) (l : Landing) (s : Shell R)
      → str_eq dir d ≡ false
      → seen (merge_in answers t dir l s).2 ≡ seen s
  unfolding merge_in git checkout_log
  merge_in_quiet dir l s apart = ground (arith, apart)

  pub line_stats_quiet :
      (dir from to : String) (s : Shell R)
      → seen (merge_line_stats answers t dir from to s).1 ≡ seen s
  unfolding merge_line_stats git checkout_log
  line_stats_quiet dir from to s = refl

  pub added_quiet :
      (l : Landing) (tmp : String) (s : Shell R)
      → seen (git answers (Command.worktree_add l.repo_path tmp l.target) s).1 ≡ seen s
  unfolding git checkout_log
  added_quiet l tmp s = refl

  pub merge_in_worktree_quiet :
      (tmp : String) (l : Landing) (s : Shell R)
      → str_eq tmp d ≡ false
      → seen (merge_in_worktree answers t tmp l s).1 ≡ seen s
  unfolding merge_in_worktree
  merge_in_worktree_quiet tmp l s apart =
      let s₁ = remove_merge_worktree answers t l.repo_path tmp s in
      let a = remove_merge_worktree_quiet l.repo_path tmp s in
      let (added, s₂) = git answers (Command.worktree_add l.repo_path tmp l.target) s₁ in
      let b : seen s₂ ≡ seen s₁ = added_quiet l tmp s₁ in
      elim (Bool-cases (succeeded added)) [
        | inr lost ↦ rw (lost, merge_in_worktree) (b ∙ a)
        | inl made ↦
            let s₃ = (merge_in answers t tmp l s₂).2 in
            let c = merge_in_quiet tmp l s₂ apart in
            elim (Bool-cases (merge_in answers t tmp l s₂).0) [
              | inr stuck ↦
                  rw (made, stuck, merge_in_worktree)
                    (remove_merge_worktree_quiet l.repo_path tmp s₃ ∙ c ∙ b ∙ a)
              | inl done ↦
                  rw (made, done, merge_in_worktree)
                    (remove_merge_worktree_quiet l.repo_path tmp _
                      ∙ line_stats_quiet tmp "ORIG_HEAD" "HEAD" s₃
                      ∙ c
                      ∙ b
                      ∙ a)
            ]
      ]

  pub merge_into_target_worktree_quiet :
      (tmp_of : String → String) (l : Landing) (s : Shell R)
      → str_eq (tmp_of l.target) d ≡ false
      → seen (merge_into_target_worktree answers t tmp_of l s).1 ≡ seen s
  unfolding merge_into_target_worktree
  merge_into_target_worktree_quiet tmp_of l s apart =
      let (fast, s₁) = merge_via_tree answers t l s in
      elim (Option-cases fast) [
        | inl slow ↦
            rw (slow, merge_into_target_worktree)
              (merge_in_worktree_quiet (tmp_of l.target) l s₁ apart ∙ merge_via_tree_quiet l s)
        | inr (result, quick) ↦ rw (quick, merge_into_target_worktree) (merge_via_tree_quiet l s)
      ]
