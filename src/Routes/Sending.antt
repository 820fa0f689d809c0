-- ===== src/Routes/Sending.antt =====
-- app/api/tasks/[id]/messages/route.ts: a message is launched with the slot in hand, or the slot is
-- left as it was found or given back.
use operator_oss.Base.{
  ℕ, ◌≡◌, ◌⊎◌, refl, ◌∙◌, inl, inr, Bool, true, false, Option, none, some, String, str_eq,
  if◌then◌else◌, arith, Bool-cases, Option-cases,
}
use operator_oss.Maps.{get}
use operator_oss.Turns.{is_task_deleting, owns_turn, claim_turn}
use operator_oss.World.{World, Task, Project, get_task, publish}
use operator_oss.Pending.{add_pending_message}
use operator_oss.Runner.{Turn}
use operator_oss.Runner.Frames.{update_task_lem}
use operator_oss.Runner.Launch.{Launched, park_message, start_resume_turn}
use operator_oss.Runner.Launching.{owns_turn-unregister_turn}
use operator_oss.LaunchConfig.{Capabilities}
use operator_oss.Routes.Send.{
  Answer, refused, launched, queued, Outside, Checked, stop, go, needs_review, withdraw, check_task,
  park_follow_up, ensure_tree, launch_first, under_lock, is_launched, settle_claim, post_message,
  answer_launched, opening, shown,
}
use operator_oss.Routes.Starting.{
  StartedOrThrew, either, start_resume_turn-Started, launch_first-Started,
}

module _ (capabilities : String → Option Capabilities) (trim : String → String)
    (too_large : String → Bool) where
  -- A launch under the task's lock: of the row that was read there, with every check passed there.
  pub record IsSent (id : String) (c : ℕ) (locked : World) (a : Answer) (w' : World) : Type 0 where
    pub turn : Turn
    pub resume : Bool
    pub note : String
    pub answer : a ≡ launched turn resume note
    pub fresh : Task
    pub read : get_task id locked ≡ some fresh
    pub not_deleting : is_task_deleting id locked.turns ≡ false
    pub reviewed : needs_review capabilities trim too_large fresh ≡ false
    pub task_id : turn.task_id ≡ id
    pub generation : turn.gen ≡ fresh.generation
    pub controller : turn.controller ≡ c
    pub row : Task
    pub found : get_task id w' ≡ some row
    pub runs : row.running ≡ true
    pub waits : row.awaiting_input ≡ false

  abbrev Sent : String → ℕ → World → Answer × World → Type 0
  Sent id c w r = (is_launched capabilities trim too_large r.0 ≡ false) ⊎ IsSent id c w r.0 r.1

  ensure_tree_generation :
      (id : String) (t : Task) (o : Outside) (w : World)
      → (ensure_tree capabilities trim too_large id t o w).0.generation ≡ t.generation
  unfolding ensure_tree
  ensure_tree_generation id t o w = ground arith

  launch-Sent :
      (id : String) (c : ℕ) (w : World) (fresh : Task) (gen : ℕ) (l : Launched)
      → get_task id w ≡ some fresh
      → is_task_deleting id w.turns ≡ false
      → needs_review capabilities trim too_large fresh ≡ false
      → gen ≡ fresh.generation
      → StartedOrThrew id gen c l
      → Sent id c w (answer_launched capabilities trim too_large l)
  launch-Sent id c w fresh gen l read alive fine same (inl (text, w', e)) = inl (rw e refl)
  launch-Sent id c w fresh gen l read alive fine same (inr h) = rw (h.launch) (
      inr (record {
        turn = h.turn;
        resume = h.resume;
        note = h.note;
        answer = refl;
        fresh = fresh;
        read = read;
        not_deleting = alive;
        reviewed = fine;
        task_id = h.task_id;
        generation = h.generation ∙ same;
        controller = h.controller;
        row = h.row;
        found = h.found;
        runs = h.runs;
        waits = h.waits;
      }))

  -- The launch at the end of the checks.
  last_step :
      (id : String) (o : Outside) (c : ℕ) (w : World) (fresh : Task) (text : String)
      → StartedOrThrew id (ensure_tree capabilities trim too_large id fresh o w).0.generation c (
          if fresh.started
          then start_resume_turn id
              (ensure_tree capabilities trim too_large id fresh o w).0
              o.registers
              o.sync
              o.during_sync
              text
              (some c)
              (ensure_tree capabilities trim too_large id fresh o w).1
          else launch_first capabilities trim too_large id
              (ensure_tree capabilities trim too_large id fresh o w).0
              o.registers
              text
              (shown capabilities trim too_large
                (ensure_tree capabilities trim too_large id fresh o w).0
                (trim o.text))
              c
              (ensure_tree capabilities trim too_large id fresh o w).1)
  last_step id o c w fresh text =
      let (t, w₁) = ensure_tree capabilities trim too_large id fresh o w in
      either fresh.started
        (start_resume_turn-Started id t o.registers o.sync o.during_sync text c w₁)
        (launch_first-Started capabilities trim too_large id t o.registers text
          (shown capabilities trim too_large t (trim o.text)) c w₁)

  under_lock-Sent :
      (id : String) (o : Outside) (c : ℕ) (w : World)
      → Sent id c w (under_lock capabilities trim too_large id o c w)
  unfolding under_lock
  under_lock-Sent id o c w = elim (Option-cases (get_task id w)) [
    | inl gone ↦ inl (rw (gone, under_lock) refl)
    | inr (fresh, read) ↦
        let typed = trim o.text in
        let text =
          if fresh.started then typed else opening capabilities trim too_large fresh typed in
        elim (Bool-cases (is_task_deleting id w.turns)) [
          | inl dying ↦ inl (rw (read, dying, under_lock) refl)
          | inr alive ↦ elim (Bool-cases (needs_review capabilities trim too_large fresh)) [
            | inl asks ↦ inl (rw (read, alive, asks, under_lock) refl)
            | inr fine ↦ elim (Bool-cases (str_eq text "")) [
              | inl empty ↦ inl (rw (read, alive, fine, empty, under_lock) refl)
              | inr full ↦ elim (Bool-cases (too_large text)) [
                | inl big ↦ inl (rw (read, alive, fine, full, big, under_lock) refl)
                | inr small ↦
                    rw (read, alive, fine, full, small, under_lock)
                      (launch-Sent id c w fresh _ _ read alive fine
                        (ensure_tree_generation id fresh o w) (last_step id o c w fresh text))
              ]
            ]
          ]
        ]
  ]

  -- The slot was claimed: the turn was launched, or the slot was given back.
  abbrev IsSettled : String → ℕ → World → Answer × World → Type 0
  IsSettled id c locked (a, w') =
      ((is_launched capabilities trim too_large a ≡ false) × (owns_turn id c w'.turns ≡ false))
      ⊎ IsSent id c locked a w'

  abbrev pub is_queued : Answer → Bool
  is_queued queued = true
  is_queued _ = false

  -- Neither launched nor queued, with the slots and the queues of an earlier world.
  abbrev pub IsTurnedAway : World → Answer × World → Type 0
  IsTurnedAway w₀ (a, w') =
      (is_launched capabilities trim too_large a ≡ false)
      × (is_queued a ≡ false)
      × (w'.turns ≡ w₀.turns)
      × (w'.pending ≡ w₀.pending)

  -- The message is in the queue of this generation, and the slots are as they were.
  abbrev pub IsQueued : String → ℕ → String → World → Answer × World → Type 0
  IsQueued id gen text w (a, w') =
      (a ≡ queued)
      × (w'.turns ≡ w.turns)
      × (w'.pending ≡ (add_pending_message w.next_id w.clock id gen text w.pending).0)

  -- The world after the claim of the slot and after the wait for the task's lock.
  abbrev pub locked_world : String → Outside → World → World
  locked_world id o w₁ = o.during_lock (record w₁ { turns = (claim_turn id w₁.turns).0 })

  -- Nothing was claimed, or the claim was settled.
  abbrev pub Handled : String → Outside → World → Answer × World → Type 0
  Handled id o w r =
      ((w₀ : World) × ((w₀ ≡ w) ⊎ (w₀ ≡ o.during_body w)) × IsTurnedAway w₀ r)
      ⊎ ((t : Task) × (get_task id w ≡ some t)
          × ((claim_turn id (o.during_body w).turns).1 ≡ none)
          × IsQueued id t.generation (trim o.text) (o.during_body w) r)
      ⊎ ((c : ℕ) × ((claim_turn id (o.during_body w).turns).1 ≡ some c)
          × IsSettled id c (locked_world id o (o.during_body w)) r)

  settle_claim-IsSettled :
      (id : String) (c : ℕ) (locked : World) (r : Answer × World)
      → Sent id c locked r
      → IsSettled id c locked (settle_claim capabilities trim too_large id c r)
  settle_claim-IsSettled id c locked (a, w) (inl out) =
      rw out (inl (refl, owns_turn-unregister_turn id c w.turns))
  settle_claim-IsSettled id c locked (a, w) (inr h) =
      let on : is_launched capabilities trim too_large a ≡ true = rw (h.answer) refl in
      inr (rw on h)

  Checked-cases :
      (x : Checked)
      → ((n : ℕ) × (w : World) × (x ≡ stop n w)) ⊎ ((t : Task) × (p : Project) × (x ≡ go t p))
  Checked-cases (stop n w) = inl (n, w, refl)
  Checked-cases (go t p) = inr (t, p, refl)

  turns-withdraw :
      (id : String) (t : Task) (w : World)
      → ((withdraw capabilities trim too_large id t w).turns ≡ w.turns)
        × ((withdraw capabilities trim too_large id t w).pending ≡ w.pending)
  unfolding withdraw
  turns-withdraw id t w =
      let same = (update_task_lem id (λ r. record r { launch_config_confirmed_at = 0 }) w).1 in
      (ground (arith, same.turns), ground (arith, same.pending))

  check_task-read :
      (id : String) (w : World) (t : Task) (p : Project)
      → check_task capabilities trim too_large id w ≡ go t p
      → get_task id w ≡ some t
  unfolding check_task
  check_task-read id w t p h = elim (Option-cases (get_task id w)) [
    | inl gone ↦ ground (arith, gone, h)
    | inr (r, read) ↦ elim (Option-cases (get r.project_id w.projects)) [
      | inl lost ↦ ground (arith, read, lost, h)
      | inr (q, found) ↦ ground (arith, read, found, h)
    ]
  ]

  turns-check_task :
      (id : String) (w w' : World) (n : ℕ)
      → check_task capabilities trim too_large id w ≡ stop n w'
      → (w'.turns ≡ w.turns) × (w'.pending ≡ w.pending)
  unfolding check_task
  turns-check_task id w w' n h = elim (Option-cases (get_task id w)) [
    | inl gone ↦ ground (arith, gone, h)
    | inr (t, read) ↦ elim (Option-cases (get t.project_id w.projects)) [
      | inl lost ↦ ground (arith, read, lost, h, turns-withdraw id t w)
      | inr (p, found) ↦ ground (arith, read, found, h, turns-withdraw id t w)
    ]
  ]

  park_follow_up_lem :
      (id : String) (t : Task) (text : String) (w : World)
      → IsTurnedAway w (park_follow_up capabilities trim too_large id t text w)
        ⊎ IsQueued id t.generation
            (trim text)
            w
            (park_follow_up capabilities trim too_large id t text w)
  unfolding park_follow_up park_message publish
  park_follow_up_lem id t text w = elim (Option-cases (get id w.tasks)) [
    | inl gone ↦ inl (ground arith, ground arith, ground arith, ground arith)
    | inr (r, there) ↦ elim (Bool-cases (is_task_deleting id w.turns)) [
      | inl dying ↦ inl (ground arith, ground arith, ground arith, ground arith)
      | inr alive ↦ elim (Bool-cases (str_eq (trim text) "")) [
        | inl empty ↦ inl (ground arith, ground arith, ground arith, ground arith)
        | inr full ↦ elim (Bool-cases (too_large (trim text))) [
          | inl big ↦ inl (ground arith, ground arith, ground arith, ground arith)
          | inr small ↦ inr (ground arith, ground arith, ground arith)
        ]
      ]
    ]
  ]

  claimed-IsSettled :
      (id : String) (o : Outside) (c : ℕ) (w : World)
      → IsSettled id c (o.during_lock w) (
          settle_claim capabilities trim too_large id c (
            if o.directory_ok
            then under_lock capabilities trim too_large id o c (o.during_lock w)
            else (refused 400, w)))
  claimed-IsSettled id o c w =
      settle_claim-IsSettled id c (o.during_lock w) _
        (checked o.directory_ok (under_lock-Sent id o c (o.during_lock w)))
    where
      checked :
          (b : Bool) {r : Answer × World}
          → Sent id c (o.during_lock w) r
          → Sent id c (o.during_lock w) (if b then r else (refused 400, w))
      checked true h = h
      checked false h = inl refl

  -- A POST of a message never leaves a slot taken without a turn. It may be turned away
  -- before any claim, with the slots and the queues as they were. It may find the slot not to be had,
  -- and then its message is put in the queue under the generation of the row that was read first, and
  -- the slots are as they were. Or it claims the slot. Then it is either not launched, and the slot is
  -- given back, or a turn is launched with the controller that it claimed, for the row that the world
  -- after the wait for the task's lock has, where the task was not being deleted and needed no review
  -- in that world, and the row shows it as running.
  pub post_message-Handled :
      (id : String) (o : Outside) (w : World)
      → Handled id o w (post_message capabilities trim too_large id o w)
  unfolding post_message
  post_message-Handled id o w =
      let w₁ = o.during_body w in
      elim (Checked-cases (check_task capabilities trim too_large id w)) [
        | inl (n, w', e) ↦
            let same = turns-check_task id w w' n e in
            rw (e, post_message) (inl (w, inl refl, (refl, refl, same.0, same.1)))
        | inr (t, p, e) ↦ elim (Option-cases (claim_turn id w₁.turns).1) [
          | inl busy ↦
              let read = check_task-read id w t p e in
              elim (park_follow_up_lem id t o.text w₁) [
                | inl away ↦ rw (e, busy, post_message) (inl (w₁, inr refl, away))
                | inr into ↦ rw (e, busy, post_message) (inr (inl (t, read, refl, into)))
              ]
          | inr (c, yes_it) ↦
              let w₂ = record w₁ { turns = (claim_turn id w₁.turns).0 } in
              rw (e, yes_it, post_message) (inr (inr (c, refl, claimed-IsSettled id o c w₂)))
        ]
      ]
