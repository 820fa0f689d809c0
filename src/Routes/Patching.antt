-- ===== src/Routes/Patching.antt =====
-- app/api/tasks/[id]/route.ts: a PATCH on every branch.
use operator_oss.Base.{
  ℕ, ◌≡◌, ◌⊎◌, ◌≤◌, refl, ap, sym, ◌∙◌, inl, inr, Bool, Bool-cases, true, false, Option, none, some,
  List, String, str_eq, eq_refl, arith, Option-cases, if◌then◌else◌,
}
use operator_oss.Maps.{get-set}
use operator_oss.Turns.{has_turn, abort_turn}
use operator_oss.World.{World, Task, Status, get_task, update_task}
use operator_oss.Deps.{Edge}
use operator_oss.LaunchConfig.{Capabilities}
use operator_oss.Routes.Edit.{
  Edit, Allowed, Step, denied, allowed, Patched, refused, crashed, saved, has_null, with_columns,
  edit_of, new_deps, apply_edit, patch_task, is_cancelled,
}
use operator_oss.Routes.Send.{needs_review}
use operator_oss.Routes.Editing.{nulls_in, IsLetThrough, edit_of-IsLetThrough}

abbrev pub stop_turn : String → World → World
stop_turn id w = record w { turns = (abort_turn id w.turns).0 }

is_cancelled-eq :
    (s : Option (Option Status)) → is_cancelled s ≡ true → s ≡ some (some Status.cancelled)
is_cancelled-eq (some (some Status.cancelled)) h = refl
is_cancelled-eq (some (some Status.not_started)) h = cc
is_cancelled-eq (some (some Status.in_progress)) h = cc
is_cancelled-eq (some (some Status.on_hold)) h = cc
is_cancelled-eq (some (some Status.finished)) h = cc
is_cancelled-eq (some none) h = cc
is_cancelled-eq none h = cc

Step-cases : (s : Step) → ((code : ℕ) × (s ≡ denied code)) ⊎ ((a : Allowed) × (s ≡ allowed a))
Step-cases (denied code) = inl (code, refl)
Step-cases (allowed a) = inr (a, refl)

update_task_writes :
    (id other : String) (f : Task → Task) (t : Task) (w : World)
    → get_task id w ≡ some t
    → get_task other (update_task id f w)
      ≡ (if str_eq id other then some (f t) else get_task other w)
unfolding update_task
update_task_writes id other f t w found = rw (found, update_task) (get-set id other (f t) w.tasks)

module _ (catalog : String → Option Capabilities) (default_one : Capabilities)
    (get_setting : String → Option String) where
  -- What a request that wrote no row may have done to the world: no more than stop the turn of a task
  -- to be cancelled.
  abbrev pub Untouched : String → Edit → World → World → Type 0
  Untouched id b w w' =
      (w' ≡ w) ⊎ ((b.status ≡ some (some Status.cancelled)) × (w' ≡ stop_turn id w))

  -- What a request that is let through has written.
  abbrev pub Written : String → String → Edit → World → World → Type 0
  Written id other b w w' =
      (t : Task) × (a : Allowed) × (get_task id w ≡ some t)
      × (get_task other w'
          ≡ (if str_eq id other then some (with_columns a t) else get_task other w))
      × IsLetThrough catalog default_one get_setting b w.clock t a

  -- A write that throws: the body has a null, no row is written, and the dependencies are those of
  -- the body.
  abbrev pub Crashed : String → Edit → World → List Edge → Patched → Type 0
  Crashed id b w edges r =
      (w' : World) × (edges' : List Edge) × (r ≡ crashed w' edges')
      × Untouched id b w w'
      × (nulls_in catalog default_one get_setting b ≡ true)
      × (new_deps catalog default_one get_setting b.depends_on id w' edges ≡ some edges')

  abbrev pub Refused : String → Edit → World → List Edge → Patched → Type 0
  Refused id b w edges r =
      (code : ℕ) × (w' : World) × (r ≡ refused code w' edges) × Untouched id b w w'

  apply_edit_cases :
      (id other : String) (b : Edit) (t : Task) (a : Allowed) (w : World) (edges : List Edge)
      → get_task id w ≡ some t
      → a.status ≡ b.status
      → has_null a.title a.description a.status a.suggested
        ≡ nulls_in catalog default_one get_setting b
      → let r = apply_edit catalog default_one get_setting id b.depends_on a w edges in
        Refused id b w edges r
        ⊎ Crashed id b w edges r
        ⊎ ((w' : World) × (edges' : List Edge) × (r ≡ saved w' edges')
            × (get_task other w'
                ≡ (if str_eq id other then some (with_columns a t) else get_task other w))
            × (nulls_in catalog default_one get_setting b ≡ false))
  unfolding apply_edit
  apply_edit_cases id other b t a w edges found same nulls =
      let w₁ = if is_cancelled a.status then stop_turn id w else w in
      let there : get_task id w₁ ≡ some t = ground (arith, found) in
      let least = stopped_at_most (is_cancelled a.status) refl in
      elim (Option-cases (new_deps catalog default_one get_setting b.depends_on id w₁ edges)) [
        | inl bad ↦ inl (400, w₁, rw (bad, apply_edit) refl, least)
        | inr (edges', fine) ↦
            elim (Bool-cases (has_null a.title a.description a.status a.suggested)) [
              | inl null ↦ inr (
                  inl (
                    w₁,
                    edges',
                    rw (fine, there, null, apply_edit) refl,
                    least,
                    sym nulls ∙ null,
                    fine,
                  ))
              | inr full ↦
                  let rows = update_task_writes id other (with_columns a) t w₁ there in
                  inr (
                    inr (
                      update_task id (with_columns a) w₁,
                      edges',
                      rw (fine, there, full, apply_edit) refl,
                      rows
                          ∙ ap (λ r. if str_eq id other then some (with_columns a t) else r)
                              (kept (is_cancelled a.status)),
                      sym nulls ∙ full,
                    ))
            ]
      ]
    where
      stopped_at_most :
          (c : Bool)
          → is_cancelled a.status ≡ c
          → Untouched id b w (if c then stop_turn id w else w)
      stopped_at_most false e = inl refl
      stopped_at_most true e = inr (sym same ∙ is_cancelled-eq a.status e, refl)

      kept : (c : Bool) → get_task other (if c then stop_turn id w else w) ≡ get_task other w
      kept false = refl
      kept true = refl

  -- A PATCH is refused, or let through, or its last write throws. Refused, it writes no row and no
  -- dependency, and changes nothing at all, but that it may have stopped the turn of a task that it was
  -- to set to cancelled. A last write that throws had a null for a column that takes none: then no row
  -- is written either, but the dependencies of the body have been. Let through, the body had no such
  -- null, and the request writes the row of its own task and no other. A task with a session keeps its
  -- agent, and one with a session or a worktree its mode; a permission mode that is set is one that the
  -- task's harness offers; a setup that was confirmed and valid before the first turn, or open, is so
  -- after it; and a confirmation is given to a valid setup of a task that has not started.
  pub patch_task_cases :
      (id other : String) (b : Edit) (w : World) (edges : List Edge)
      → let r = patch_task catalog default_one get_setting id b w edges in
        Refused id b w edges r
        ⊎ Crashed id b w edges r
        ⊎ ((w' : World) × (edges' : List Edge) × (r ≡ saved w' edges')
            × Written id other b w w'
            × (nulls_in catalog default_one get_setting b ≡ false))
  unfolding patch_task
  patch_task_cases id other b w edges = elim (Option-cases (get_task id w)) [
    | inl gone ↦ inl (404, w, rw (gone, patch_task) refl, inl refl)
    | inr (t, found) ↦
        elim (Step-cases
          (edit_of catalog default_one get_setting b (has_turn id w.turns) w.clock t)) [
            | inl (code, bad) ↦ inl (code, w, rw (found, bad, patch_task) refl, inl refl)
            | inr (a, fine) ↦
                let h =
                  edit_of-IsLetThrough catalog default_one get_setting b (has_turn id w.turns)
                    w.clock t a fine in
                elim (apply_edit_cases id other b t a w edges found h.0 h.6) [
                  | inl (code, w', e, kept) ↦ inl (code, w', rw (found, fine, patch_task) e, kept)
                  | inr (inl (w', edges', e, kept, null, made)) ↦
                      inr (inl (w', edges', rw (found, fine, patch_task) e, kept, null, made))
                  | inr (inr (w', edges', e, rows, full)) ↦ inr (
                      inr
                        (w', edges', rw (found, fine, patch_task) e, (t, a, found, rows, h), full))
                ]
          ]
  ]

module _ (catalog : String → Option Capabilities) (default_one : Capabilities)
    (get_setting : String → Option String) (trim : String → String)
    (too_large : String → Bool) where
  -- A task whose setup was confirmed by a PATCH, at a time that is not 0, needs no review when its first
  -- message comes.
  pub confirmed_needs_no_review :
      (id : String) (b : Edit) (w w' : World) (edges edges' : List Edge)
      → patch_task catalog default_one get_setting id b w edges ≡ saved w' edges'
      → b.confirm ≡ true
      → 1 ≤ w.clock
      → (t : Task) × (get_task id w' ≡ some t) × (needs_review catalog trim too_large t ≡ false)
  unfolding needs_review with_columns
  confirmed_needs_no_review id b w w' edges edges' e asks late =
      elim (patch_task_cases catalog default_one get_setting id id b w edges) [
        | inl (code, w₁, e', kept) ↦ ground (arith, e, e')
        | inr (inl (w₁, edges₁, e', kept, null, made)) ↦ ground (arith, e, e')
        | inr (inr (w₁, edges₁, e', (t, a, found, rows, h), full)) ↦
            let same : w' ≡ w₁ = cc in
            (
              with_columns a t,
              rw (same, rows, eq_refl id) refl,
              elim h.5 [
                | inl asks_not ↦ cc
                | inr (starts, at, valid) ↦ rw (at, valid) (ground arith)
              ],
            )
      ]
