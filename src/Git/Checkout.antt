-- ===== src/Git/Checkout.antt =====
-- lib/git.ts: which commands read or change the files and the branch of one checkout.
use operator_oss.Base.{◌≡◌, Bool, false, List, [], ◌∷◌, String, str_eq, if◌then◌else◌, arith}
use operator_oss.Git.{
  Command, Reply, Shell, Texts, git, conflict_marker_files, binary_conflict_files,
}
use operator_oss.Git.Status.{worktree_merge_status}

abbrev pub touches : String → Command → Bool
touches dir (Command.status_of d) = str_eq d dir
touches dir (Command.add_all d) = str_eq d dir
touches dir (Command.commit d message fallback) = str_eq d dir
touches dir (Command.commit_merge d fallback) = str_eq d dir
touches dir (Command.merge d message branch) = str_eq d dir
touches dir (Command.merge_ff d branch) = str_eq d dir
touches dir (Command.merge_abort d) = str_eq d dir
touches dir (Command.reset_hard d ref) = str_eq d dir
touches dir (Command.set_marker d) = str_eq d dir
touches dir (Command.clear_marker d) = str_eq d dir
touches dir _ = false

-- The commands that ask for the changes of a checkout, or change it, newest first.
unfoldable pub checkout_log : String → List (Command × Reply) → List (Command × Reply)
checkout_log dir [] = []
checkout_log dir (e ∷ es) =
    let rest = checkout_log dir es in if touches dir e.0 then e ∷ rest else rest

module _ {R : Type 0} (answers : Command → R → Reply × R) (t : Texts) where
  pub worktree_merge_status_quiet :
      (dir d : String) (s : Shell R)
      → checkout_log d (worktree_merge_status answers t dir s).1.log ≡ checkout_log d s.log
  unfolding worktree_merge_status git conflict_marker_files binary_conflict_files checkout_log
  worktree_merge_status_quiet dir d s = ground arith
