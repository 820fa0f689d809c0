-- ===== src/Routes/Send.antt =====
-- app/api/tasks/[id]/messages/route.ts: POST, which starts a turn or parks a follow-up.
use Prim.Native.String.{◌++◌ as append}
use operator_oss.Base.{
  ℕ, Bool, true, false, not, ◌&&◌, ◌||◌, Option, none, some, String, str_eq, ◌==◌, if◌then◌else◌,
  is_some,
}
use operator_oss.Maps.{get}
use operator_oss.Turns.{is_task_deleting, claim_turn}
use operator_oss.World.{
  World, Task, WorkspaceMode, Project, user, plain, message_event, get_task, update_task, publish,
  add_message,
}
use operator_oss.Runner.{Turn}
use operator_oss.Runner.Launch.{
  Launched, running, parked, threw, foreign_key, park_message, start_turn, start_resume_turn,
  begin_running, release,
}
use operator_oss.LaunchConfig.{Capabilities, validate_launch_configuration, config_of}

-- A refusal has its HTTP status.
pub data Answer : Type 0 where
  refused : ℕ → Answer
  queued : Answer
  launched : Turn → Bool → String → Answer
  crashed : String → Answer

-- What ensureWorktree gives: path, branch and base; nothing where it fails or there is no repository.
pub record Tree : Type 0 where
  pub path : String
  pub branch : String
  pub base_sha : String

-- What the outside gives to a request, and what the rest of the process does while it waits: for the
-- body, for the task's lock, for the worktree, for the catch-up of the branch.
pub record Outside : Type 0 where
  pub text : String
  pub directory_ok : Bool
  pub on_disk : Bool
  pub tree : Option Tree
  pub sync : Option (String × String)
  pub registers : Bool
  pub during_body : World → World
  pub during_lock : World → World
  pub during_tree : World → World
  pub during_sync : World → World

pub data Checked : Type 0 where
  stop : ℕ → World → Checked
  go : Task → Project → Checked

module _ (capabilities : String → Option Capabilities) (trim : String → String)
    (too_large : String → Bool) where
  -- An agent's suggestion that was not reviewed, or whose setup is not valid any more.
  unfoldable pub needs_review : Task → Bool
  needs_review t =
      not t.started
      && (t.launch_config_required
          && (t.launch_config_confirmed_at == 0
              || is_some (validate_launch_configuration capabilities (config_of t))))

  -- A confirmation that does not hold any more is taken back.
  unfoldable pub withdraw : String → Task → World → World
  withdraw id t w =
      if t.launch_config_confirmed_at == 0
      then w
      else update_task id (λ r. record r { launch_config_confirmed_at = 0 }) w

  unfoldable pub check_task : String → World → Checked
  unfolding needs_review withdraw
  check_task id w = elim (get_task id w) [
    | none ↦ stop 404 w
    | some t ↦
        if is_task_deleting id w.turns
        then stop 409 w
        else if needs_review t
        then stop 409 (withdraw id t w)
        else elim (get t.project_id w.projects) [
          | none ↦ stop 400 w
          | some p ↦ if str_eq (trim p.repo_path) "" then stop 400 w else go t p
        ]
  ]

  abbrev pub answer_parked : Launched → Answer × World
  answer_parked (parked w) = (queued, w)
  answer_parked (threw text w) = (crashed text, w)
  answer_parked (running t resume note w) = (launched t resume note, w)

  -- The slot is taken: the message waits for the turn's end.
  unfoldable pub park_follow_up : String → Task → String → World → Answer × World
  unfolding park_message
  park_follow_up id t text w =
      let content = trim text in
      if is_task_deleting id w.turns
      then (refused 409, w)
      else if str_eq content ""
      then (refused 400, w)
      else if too_large content
      then (refused 413, w)
      else answer_parked (park_message id t.generation content w)

  abbrev in_worktree : WorkspaceMode → Bool
  in_worktree WorkspaceMode.worktree = true
  in_worktree WorkspaceMode.direct = false

  abbrev pub with_tree : Option Tree → Task → Task
  with_tree none r = r
  with_tree (some b) r = record r {
    worktree_path = b.path;
    work_branch = b.branch;
    base_sha = b.base_sha;
  }

  -- The row as the request goes on with it, and the world.
  unfoldable pub ensure_tree : String → Task → Outside → World → Task × World
  ensure_tree id t o w =
      if in_worktree t.workspace_mode && (str_eq t.worktree_path "" || not o.on_disk)
      then (with_tree o.tree t, update_task id (with_tree o.tree) (o.during_tree w))
      else (t, w)

  abbrev pub opening : Task → String → String
  opening t typed =
      if str_eq typed "" then trim (append t.title (append "\n\n" t.description)) else typed

  abbrev pub shown : Task → String → String
  shown t typed =
      if str_eq typed "" then append "**" (append t.title (append "** — " t.description)) else typed

  -- The first turn of a generation.
  unfoldable pub launch_first : String → Task → Bool → String → String → ℕ → World → Launched
  unfolding start_turn
  launch_first id t registers text echo c w =
      elim (add_message id t.generation user (plain echo) w) [
        | none ↦ threw foreign_key w
        | some (w₁, n) ↦
            start_turn id t registers text "" (some c)
              (publish id (message_event user n) (update_task id begin_running w₁))
      ]

  abbrev pub answer_launched : Launched → Answer × World
  answer_launched (running t resume note w) = (launched t resume note, w)
  answer_launched (parked w) = (queued, w)
  answer_launched (threw text w) = (crashed text, w)

  -- Holding the task's lock, and the slot with controller `c`.
  unfoldable pub under_lock : String → Outside → ℕ → World → Answer × World
  unfolding needs_review withdraw ensure_tree launch_first start_resume_turn
  under_lock id o c w = elim (get_task id w) [
    | none ↦ (refused 404, w)
    | some fresh ↦
        let typed = trim o.text in
        let text = if fresh.started then typed else opening fresh typed in
        if is_task_deleting id w.turns
        then (refused 409, w)
        else if needs_review fresh
        then (refused 409, withdraw id fresh w)
        else if str_eq text ""
        then (refused 400, w)
        else if too_large text
        then (refused 413, w)
        else (let (t, w₁) = ensure_tree id fresh o w in
            answer_launched (
              if fresh.started
              then start_resume_turn id t o.registers o.sync o.during_sync text (some c) w₁
              else launch_first id t o.registers text (shown t typed) c w₁))
  ]

  abbrev pub is_launched : Answer → Bool
  is_launched (launched t resume note) = true
  is_launched _ = false

  -- The `finally` of the request: what was not launched gives the slot back.
  abbrev pub settle_claim : String → ℕ → Answer × World → Answer × World
  settle_claim id c (a, w) = (a, if is_launched a then w else release id c w)

  unfoldable pub post_message : String → Outside → World → Answer × World
  unfolding check_task park_follow_up under_lock
  post_message id o w = elim (check_task id w) [
    | stop code w' ↦ (refused code, w')
    | go t p ↦
        let w₁ = o.during_body w in
        let (reg, claimed) = claim_turn id w₁.turns in
        elim claimed [
          | none ↦ park_follow_up id t o.text w₁
          | some c ↦
              let w₂ = record w₁ { turns = reg } in
              settle_claim id c
                (if o.directory_ok then under_lock id o c (o.during_lock w₂) else (refused 400, w₂))
        ]
  ]
