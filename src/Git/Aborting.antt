-- ===== src/Git/Aborting.antt =====
-- lib/git.ts: what abortWorktreeMerge discards: a merge that is paused, whoever began it,
-- or else a merge commit at HEAD whose first parent is the commit that the marker names.
use operator_oss.Base.{
  ◌≡◌, ◌⊎◌, refl, subst, inl, inr, Bool, true, false, ◌&&◌, List, ◌∷◌, String, str_eq, Bool-cases,
}
use operator_oss.Git.{Command, Reply, Shell, Texts, or_blank, git, is_dirty}
use operator_oss.Git.Status.{MergeStatus, worktree_merge_status}
use operator_oss.Git.Resolve.{is_our_merge, unwind, discard, abort_worktree_merge}
use operator_oss.Git.Checkout.{checkout_log, worktree_merge_status_quiet}

module _ {R : Type 0} (answers : Command → R → Reply × R) (t : Texts) where
  -- What a discarded merge has done, in the log after the questions about the merge.
  abbrev pub Undone : String → Bool → List (Command × Reply) → List (Command × Reply) → Type 0
  Undone dir paused asked log =
      ((a b : Reply) × (paused ≡ true)
        × (log ≡ (Command.clear_marker dir, b) ∷ (Command.merge_abort dir, a) ∷ asked))
      ⊎ ((mark : Reply) × (paused ≡ false)
          × (str_eq (t.trim (or_blank mark)) "" ≡ true)
          × (log ≡ (Command.marker dir, mark) ∷ asked))
      ⊎ ((mark parents state b : Reply) × (paused ≡ false)
          × ((is_our_merge (t.trim (or_blank mark)) (t.words (or_blank parents))
                && str_eq (t.trim (or_blank state)) "")
              ≡ false)
          × (log
              ≡ (Command.clear_marker dir, b)
                ∷ (Command.status_of dir, state)
                ∷ (Command.head_parents dir, parents)
                ∷ (Command.marker dir, mark)
                ∷ asked))
      ⊎ ((mark parents state a b : Reply) × (paused ≡ false)
          × (is_our_merge (t.trim (or_blank mark)) (t.words (or_blank parents)) ≡ true)
          × (str_eq (t.trim (or_blank state)) "" ≡ true)
          × (log
              ≡ (Command.clear_marker dir, b)
                ∷ (Command.reset_hard dir (t.trim (or_blank mark)), a)
                ∷ (Command.status_of dir, state)
                ∷ (Command.head_parents dir, parents)
                ∷ (Command.marker dir, mark)
                ∷ asked))

  unwind_cases :
      (dir : String) (mark : Reply) (asked : List (Command × Reply)) (s : Shell R)
      → s.log ≡ (Command.marker dir, mark) ∷ asked
      → Undone dir false asked (unwind answers t dir (t.trim (or_blank mark)) s).log
  unfolding unwind git is_dirty
  unwind_cases dir mark asked s e =
      let m = t.trim (or_blank mark) in
      let (parents, s₁) = git answers (Command.head_parents dir) s in
      let (state, s₂) = git answers (Command.status_of dir) s₁ in
      let (b, s₃) = git answers (Command.clear_marker dir) s₂ in
      let (a, s₄) = git answers (Command.reset_hard dir m) s₂ in
      let (c, s₅) = git answers (Command.clear_marker dir) s₄ in
      elim (Bool-cases (is_our_merge m (t.words (or_blank parents)))) [
        | inr theirs ↦
            inr (
              inr
                (inl (mark, parents, state, b, refl, rw theirs refl, rw (theirs, e, unwind) refl)))
        | inl ours ↦ elim (Bool-cases (str_eq (t.trim (or_blank state)) "")) [
          | inr dirty ↦ inr (
              inr (
                inl (
                  mark,
                  parents,
                  state,
                  b,
                  refl,
                  rw (ours, dirty) refl,
                  rw (ours, dirty, e, unwind) refl,
                )))
          | inl clean ↦ inr (
              inr (
                inr (
                  mark,
                  parents,
                  state,
                  a,
                  c,
                  refl,
                  ours,
                  clean,
                  rw (ours, clean, e, unwind) refl,
                )))
        ]
      ]

  discard_cases :
      (dir : String) (status : MergeStatus) (s₁ : Shell R)
      → Undone dir status.merge_in_progress s₁.log (discard answers t dir status s₁).log
  unfolding discard git
  discard_cases dir status s₁ =
      let (a, s₂) = git answers (Command.merge_abort dir) s₁ in
      let (b, s₃) = git answers (Command.clear_marker dir) s₂ in
      elim (Bool-cases status.merge_in_progress) [
        | inl paused ↦ inl (a, b, paused, rw (paused, discard) refl)
        | inr idle ↦
            let (mark, s₄) = git answers (Command.marker dir) s₁ in
            elim (Bool-cases (str_eq (t.trim (or_blank mark)) "")) [
              | inl unset ↦ inr (inl (mark, idle, unset, rw (idle, unset, discard) refl))
              | inr set_it ↦ rw (idle, set_it, discard) (unwind_cases dir mark s₁.log s₄ refl)
            ]
      ]

  stays :
      (dir : String) (s : Shell R) → str_eq dir "" ≡ true → abort_worktree_merge answers t dir s ≡ s
  unfolding abort_worktree_merge
  stays dir s none_there = rw (none_there, abort_worktree_merge) refl

  discards :
      (dir : String) (s : Shell R)
      → str_eq dir "" ≡ false
      → discard answers t dir
          (worktree_merge_status answers t dir s).0
          (worktree_merge_status answers t dir s).1
        ≡ abort_worktree_merge answers t dir s
  unfolding abort_worktree_merge
  discards dir s there = rw (there, abort_worktree_merge) refl

  -- A discarded merge is a paused merge, which is aborted whoever began it and without a look at the
  -- marker, or the merge that the marker stands for, where it is still at HEAD: it is reset to the marker only where HEAD is a merge commit whose first
  -- parent is the marker, and git did not answer that there are changes. Else nothing but the marker
  -- goes. The questions before that leave the checkout as it is.
  pub abort_worktree_merge_undoes :
      (dir : String) (s : Shell R)
      → ((str_eq dir "" ≡ true) × (abort_worktree_merge answers t dir s ≡ s))
        ⊎ ((checkout_log dir (worktree_merge_status answers t dir s).1.log ≡ checkout_log dir s.log)
            × Undone dir
                (worktree_merge_status answers t dir s).0.merge_in_progress
                (worktree_merge_status answers t dir s).1.log
                (abort_worktree_merge answers t dir s).log)
  abort_worktree_merge_undoes dir s = elim (Bool-cases (str_eq dir "")) [
    | inl none_there ↦ inl (none_there, stays dir s none_there)
    | inr there ↦
        let (status, s₁) = worktree_merge_status answers t dir s in
        inr (
          worktree_merge_status_quiet answers t dir dir s,
          subst (λ x. Undone dir status.merge_in_progress s₁.log x.log) (discards dir s there)
              (discard_cases dir status s₁),
        )
  ]
