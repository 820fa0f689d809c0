-- ===== src/Outbox/Claims.antt =====
-- lib/workstreams/store.ts: what a claim takes, and that it excludes every other claim for its lease.
use operator_oss.Base.{
  ℕ, zero, suc, ◌+◌, ◌≤◌, ◌<◌, ◌≡◌, ◌⊎◌, refl, sym, ap, subst, ◌∙◌, inl, inr, Bool, true, false,
  ◌&&◌, Option, none, some, List, [], ◌∷◌, String, str_eq, eq_iff, arith, Bool-cases, Option-cases,
  All, length, take, filter,
}
use operator_oss.Maps.{get, get-set}
use operator_oss.Outbox.{
  Box, Event, delivering, claim_lease_ms, is_due, link_active, claimed, put_event, claim_row,
  claim_workstream_event, claim_rows, read_rows, select_due, claim_due_workstream_events,
  is_eligible, order_due, insert_due, comes_first,
}

-- A claim succeeds exactly on a row whose link is active and that is due: waiting or failed with its
-- time come, or delivering with its lease run out. It then takes the row with the given token for one
-- lease and counts the attempt; a claim that fails changes nothing.
pub claim_workstream_event_cases :
    (id : String) (now : ℕ) (token : String) (b : Box)
    → ((claim_workstream_event id now token b ≡ (b, none))
        × ((get id b.events ≡ none)
            ⊎ ((e : Event) × (get id b.events ≡ some e)
                × ((link_active e.link_id b && is_due now e) ≡ false))))
      ⊎ ((e : Event) × (get id b.events ≡ some e)
          × ((link_active e.link_id b && is_due now e) ≡ true)
          × (claim_workstream_event id now token b
              ≡ (put_event id (claimed now token e) b, some (claimed now token e))))
unfolding claim_workstream_event
claim_workstream_event_cases id now token b = elim (Option-cases (get id b.events)) [
  | inl e ↦ inl (ground arith, inl e)
  | inr (e, f) ↦ elim (Bool-cases (link_active e.link_id b && is_due now e)) [
    | inl due ↦ inr (e, f, due, ground arith)
    | inr later ↦ inl (ground arith, inr (e, f, later))
  ]
]

-- Nobody else can claim a row while its lease runs: a claim after a successful claim, before the end
-- of the lease, gets nothing and changes nothing.
pub claim_workstream_event_exclusive :
    (id : String) (now later : ℕ) (token other : String) (b : Box) (e : Event)
    → (claim_workstream_event id now token b).1 ≡ some e
    → later < now + claim_lease_ms
    → claim_workstream_event id later other (claim_workstream_event id now token b).0
      ≡ ((claim_workstream_event id now token b).0, none)
unfolding claim_workstream_event
claim_workstream_event_exclusive id now later token other b e h lt =
    elim (Option-cases (get id b.events)) [
      | inl f ↦ ground arith
      | inr (x, f) ↦ ground (arith, get-set id id (claimed now token x) b.events, eq_iff id id)
    ]

-- A row that is claimed until `now` plus the lease.
pub record IsHeld (now : ℕ) (e : Event) : Type 0 where
  pub state : e.state ≡ delivering
  pub lease : e.claim_expires_at ≡ now + claim_lease_ms

abbrev Holds : ℕ → String → Box → Type 0
Holds now id b = (e : Event) × (get id b.events ≡ some e) × IsHeld now e

claim_row_takes :
    (id : String) (now : ℕ) (token : String) (b : Box) (e : Event)
    → get id b.events ≡ some e
    → is_due now e ≡ true
    → Holds now id (claim_row id now token b)
unfolding claim_row
claim_row_takes id now token b e f due = (
  claimed now token e,
  ground (arith, get-set id id (claimed now token e) b.events, eq_iff id id),
  record { state = refl; lease = refl },
)

claim_row_keeps :
    (id i : String) (now : ℕ) (token : String) (b : Box)
    → Holds now i b
    → Holds now i (claim_row id now token b)
unfolding claim_row
claim_row_keeps id i now token b (e, f, h) = elim (Option-cases (get id b.events)) [
  | inl g ↦ (e, ground arith, h)
  | inr (x, g) ↦ elim (Bool-cases (is_due now x)) [
    | inr later ↦ (e, ground arith, h)
    | inl due ↦ (
      e,
      ground (arith, get-set id i (claimed now token x) b.events, eq_iff id i, h.state, h.lease),
      h,
    )
  ]
]

-- A selected row: still as it was selected, or claimed by now.
abbrev Ready : ℕ → Box → String × Event → Type 0
Ready now b r = ((get (r.0) b.events ≡ some r.1) × (is_due now r.1 ≡ true)) ⊎ Holds now (r.0) b

-- A claim leaves another row alone.
claim_row_other :
    (id i : String) (now : ℕ) (token : String) (b : Box)
    → str_eq id i ≡ false
    → get i (claim_row id now token b).events ≡ get i b.events
unfolding claim_row
claim_row_other id i now token b other = elim (Option-cases (get id b.events)) [
  | inl g ↦ ground arith
  | inr (x, g) ↦ ground (arith, get-set id i (claimed now token x) b.events)
]

claim_row-Ready :
    (id : String) (now : ℕ) (token : String) (b : Box) (r : String × Event)
    → Ready now b r
    → Ready now (claim_row id now token b) r
claim_row-Ready id now token b r (inr h) = inr (claim_row_keeps id (r.0) now token b h)
claim_row-Ready id now token b (i, e) (inl (f, due)) = elim (Bool-cases (str_eq id i)) [
  | inl same ↦ inr (
      subst (λ j. Holds now j (claim_row id now token b)) ((eq_iff id i).0 same)
        (claim_row_takes id now token b e
          (subst (λ j. get j b.events ≡ some e) (sym ((eq_iff id i).0 same)) f) due))
  | inr other ↦ inl (claim_row_other id i now token b other ∙ f, due)
]

claim_row_own :
    (id : String) (now : ℕ) (token : String) (b : Box) (e : Event)
    → Ready now b (id, e)
    → Holds now id (claim_row id now token b)
claim_row_own id now token b e (inr h) = claim_row_keeps id id now token b h
claim_row_own id now token b e (inl (f, due)) = claim_row_takes id now token b e f due

claim_rows-Ready :
    (now : ℕ) (token : ℕ → String) (i : ℕ) (rows : List (String × Event)) (b : Box) (id : String)
    → Holds now id b
    → Holds now id (claim_rows now token i rows b)
unfolding claim_rows
claim_rows-Ready now token i [] b id h = h
claim_rows-Ready now token i ((j, e) ∷ rows) b id h =
    claim_rows-Ready now token (i + 1) rows (claim_row j now (token i) b) id
      (claim_row_keeps j id now (token i) b h)

All-Ready :
    (id : String) (now : ℕ) (token : String) (b : Box) (rows : List (String × Event))
    → All (Ready now b) rows
    → All (Ready now (claim_row id now token b)) rows
All-Ready id now token b [] h = tt
All-Ready id now token b (r ∷ rows) (h, hs) =
    (claim_row-Ready id now token b r h, All-Ready id now token b rows hs)

abbrev pub HeldIn : ℕ → Box → String × Event → Type 0
HeldIn now b r = Holds now (r.0) b

claim_rows-All :
    (now : ℕ) (token : ℕ → String) (i : ℕ) (rows : List (String × Event)) (b : Box)
    → All (Ready now b) rows
    → All (HeldIn now (claim_rows now token i rows b)) rows
unfolding claim_rows
claim_rows-All now token i [] b h = tt
claim_rows-All now token i ((id, e) ∷ rows) b (h, hs) = (
  claim_rows-Ready now token (i + 1) rows (claim_row id now (token i) b) id
      (claim_row_own id now (token i) b e h),
  claim_rows-All now token (i + 1) rows (claim_row id now (token i) b)
      (All-Ready id now (token i) b rows hs),
)

read_rows-All :
    (now : ℕ) (rows : List (String × Event)) (b : Box)
    → All (HeldIn now b) rows
    → All (λ r. IsHeld now r.1) (read_rows rows b) × (length (read_rows rows b) ≡ length rows)
unfolding read_rows
read_rows-All now [] b h = (tt, refl)
read_rows-All now ((id, old) ∷ rows) b ((e, f, held), hs) =
    rw (f, All, length)
      ((held, (read_rows-All now rows b hs).0), ap suc (read_rows-All now rows b hs).1)

-- A selected row is one of the rows with its time come.
abbrev Stored : ℕ → Box → String × Event → Type 0
Stored now b r = (get (r.0) b.events ≡ some r.1) × (is_due now r.1 ≡ true)

module _ (P : String × Event → Type 0) where
  All-insert_due :
      (r : String × Event) (rows : List (String × Event))
      → P r
      → All P rows
      → All P (insert_due r rows)
  unfolding insert_due
  All-insert_due r [] p h = (p, tt)
  All-insert_due r (x ∷ rows) p (h, hs) = elim (Bool-cases (comes_first r x)) [
    | inl e ↦ rw e (p, (h, hs))
    | inr e ↦ rw e (h, All-insert_due r rows p hs)
  ]

  All-order_due : (rows : List (String × Event)) → All P rows → All P (order_due rows)
  unfolding order_due
  All-order_due [] h = tt
  All-order_due (r ∷ rows) (h, hs) = All-insert_due r (order_due rows) h (All-order_due rows hs)

  All-take : (n : ℕ) (rows : List (String × Event)) → All P rows → All P (take n rows)
  All-take zero rows h = tt
  All-take (suc n) [] h = tt
  All-take (suc n) (r ∷ rows) (h, hs) = (h, All-take n rows hs)

length-take : (n : ℕ) (rows : List (String × Event)) → length (take n rows) ≤ n
length-take zero rows = omega arith
length-take (suc n) [] = omega arith
length-take (suc n) (r ∷ rows) = omega (arith, length-take n rows)

All-filter_due :
    (now : ℕ) (b : Box) (f g : String × Event → Bool) (rows : List (String × Event))
    → All (λ r. get (r.0) b.events ≡ some r.1) rows
    → All (Stored now b) (filter (λ r. f r && (g r && is_due now r.1)) rows)
All-filter_due now b f g [] h = tt
All-filter_due now b f g (r ∷ rows) (h, hs) = elim (Bool-cases (f r && (g r && is_due now r.1))) [
  | inl e ↦ rw e ((h, ground arith), All-filter_due now b f g rows hs)
  | inr e ↦ rw e (All-filter_due now b f g rows hs)
]

select_due-Stored :
    (now limit : ℕ) (eligible : Option (List String)) (b : Box)
    → All (λ r. get (r.0) b.events ≡ some r.1) b.events
    → All (Stored now b) (select_due now limit eligible b)
unfolding select_due
select_due-Stored now limit eligible b h =
    let due =
      filter
        (λ r. link_active (r.1).link_id b && (is_eligible eligible (r.1).link_id && is_due now r.1))
        b.events in
    All-take (Stored now b) limit (order_due due) (
      All-order_due (Stored now b) due (
        All-filter_due now b (λ r. link_active (r.1).link_id b)
          (λ r. is_eligible eligible (r.1).link_id) b.events h))

Stored-Ready :
    (now : ℕ) (b : Box) (rows : List (String × Event))
    → All (Stored now b) rows
    → All (Ready now b) rows
Stored-Ready now b [] h = tt
Stored-Ready now b (r ∷ rows) (h, hs) = (inl h, Stored-Ready now b rows hs)

pub select_due_bound :
    (now limit : ℕ) (eligible : Option (List String)) (b : Box)
    → length (select_due now limit eligible b) ≤ limit
unfolding select_due
select_due_bound now limit eligible b = length-take limit _

-- A batch of claims returns no more than its limit, and every event that it returns is delivering
-- with a lease from now; so is every row it selected, in the box it leaves, and each gives one event.
-- The primary key is one: each row of the table is the one found under its id.
pub claim_due_workstream_events_takes :
    (now limit : ℕ) (eligible : Option (List String)) (token : ℕ → String) (b : Box)
    → All (λ r. get (r.0) b.events ≡ some r.1) b.events
    → All (λ r. IsHeld now r.1) (claim_due_workstream_events now limit eligible token b).1
      × (length (claim_due_workstream_events now limit eligible token b).1 ≤ limit)
      × (length (claim_due_workstream_events now limit eligible token b).1
          ≡ length (select_due now limit eligible b))
      × All
          (HeldIn now (claim_due_workstream_events now limit eligible token b).0)
          (select_due now limit eligible b)
unfolding claim_due_workstream_events
claim_due_workstream_events_takes now limit eligible token b h =
    let due = select_due now limit eligible b in
    let held =
      claim_rows-All now token 0 due b
        (Stored-Ready now b due (select_due-Stored now limit eligible b h)) in
    let read = read_rows-All now due (claim_rows now token 0 due b) held in
    (read.0, omega (arith, read.1, select_due_bound now limit eligible b), read.1, held)
