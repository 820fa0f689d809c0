-- ===== src/Services/Processes.antt =====
-- lib/services.ts: a service that shows as running has a process, and what keeps that so.
use operator_oss.Base.{
  ℕ, ◌≡◌, inl, inr, Bool, true, false, not, ◌&&◌, ◌||◌, List, String, ◌==◌, is_some, arith,
  Bool-cases, Option-cases,
}
use operator_oss.Maps.{get}
use operator_oss.Services.{
  Kind, Status, running, Line, Managed, Row, Supervisor, Project, Desired, new_managed, hydrate,
  change, add_log,
}
use operator_oss.Services.Lifecycle.{find_or_add}
use operator_oss.Services.Rows.{persist}

abbrev pub is_running : Status → Bool
is_running running = true
is_running _ = false

-- A service of ours that shows as running has a process.
abbrev pub has_process : Managed → Bool
has_process m = not (m.managed && is_running m.status) || is_some m.proc

abbrev pub IsTracked : Supervisor → Type 0
IsTracked s = (j : ℕ) → has_process (s.objects j) ≡ true

-- An update of one object that keeps the property keeps it of all.
pub change-IsTracked :
    (i : ℕ) (f : Managed → Managed) (s : Supervisor)
    → has_process (f (s.objects i)) ≡ true
    → IsTracked s
    → IsTracked (change i f s)
change-IsTracked i f s h t j = elim (Bool-cases (j == i)) [ inl e ↦ rw e h | inr e ↦ rw e (t j) ]

-- The process, the status and the ownership of every object are as before.
pub record SameLife (s s' : Supervisor) : Type 0 where
  pub proc : (j : ℕ) → (s'.objects j).proc ≡ (s.objects j).proc
  pub status : (j : ℕ) → (s'.objects j).status ≡ (s.objects j).status
  pub managed : (j : ℕ) → (s'.objects j).managed ≡ (s.objects j).managed

pub SameLife-IsTracked : (s s' : Supervisor) → SameLife s s' → IsTracked s → IsTracked s'
SameLife-IsTracked s s' same t j = rw (same.proc j, same.status j, same.managed j) (t j)

pub add_log-SameLife :
    (cap i : ℕ) (line : Line) (s : Supervisor) → SameLife s (add_log cap i line s)
unfolding add_log
add_log-SameLife cap i line s = record {
  proc = λ j. ground arith;
  status = λ j. ground arith;
  managed = λ j. ground arith;
}

module _ (slugify : String → String) (numbered : String → ℕ → String) where
  pub persist-SameLife :
      (i : ℕ) (project : Project) (desired : Desired) (s : Supervisor)
      → SameLife s (persist slugify numbered i project desired s).0
  unfolding persist
  persist-SameLife i project desired s = record {
    proc = λ j. ground arith;
    status = λ j. ground arith;
    managed = λ j. ground arith;
  }

  pub find_or_add-IsTracked :
      (key : String) (fresh : Managed) (s : Supervisor)
      → has_process fresh ≡ true
      → IsTracked s
      → IsTracked (find_or_add slugify numbered key fresh s).0
  unfolding find_or_add
  find_or_add-IsTracked key fresh s h t = elim (Option-cases (get key s.services)) [
    | inl n ↦ rw (n, find_or_add) (change-IsTracked s.next (λ m. fresh) s h t)
    | inr (i, n) ↦ rw (n, find_or_add) t
  ]

pub new_managed-has_process :
    (project_id name : String) (kind : Kind) (command : String) (port : ℕ) (managed : Bool)
    (rows : List Row)
    → has_process (new_managed project_id name kind command port managed rows) ≡ true
unfolding new_managed hydrate
new_managed-has_process project_id name kind command port managed rows = ground arith
