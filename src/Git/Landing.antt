-- ===== src/Git/Landing.antt =====
-- lib/git.ts: what a merge does to the checkout of the user.
use operator_oss.Base.{◌≡◌, ◌⊎◌, Bool, true, false, List, ◌∷◌, String, str_eq}
use operator_oss.Git.{Command, Reply, out, failed, Texts, or_blank}
use operator_oss.Git.Merge.{Landing}

module _ {R : Type 0} (answers : Command → R → Reply × R) (t : Texts) (d : String) where
  -- What a merge does to the checkout where it works in it, after `before`.
  abbrev pub InPlace : Landing → List (Command × Reply) → Bool → List (Command × Reply) → Type 0
  InPlace l before is_ok log =
      ((state : Reply) × (str_eq (t.trim (or_blank state)) "" ≡ false)
        × (is_ok ≡ false)
        × (log ≡ (Command.status_of d, state) ∷ before))
      ⊎ ((state : Reply) × (text : String) × (str_eq (t.trim (or_blank state)) "" ≡ true)
          × (is_ok ≡ true)
          × (log
              ≡ (Command.merge d l.message l.work_branch, out text)
                ∷ (Command.status_of d, state)
                ∷ before))
      ⊎ ((state undone : Reply) × (text : String) × (str_eq (t.trim (or_blank state)) "" ≡ true)
          × (is_ok ≡ false)
          × (log
              ≡ (Command.merge_abort d, undone)
                ∷ (Command.merge d l.message l.work_branch, failed text)
                ∷ (Command.status_of d, state)
                ∷ before))
