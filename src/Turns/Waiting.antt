-- ===== src/Turns/Waiting.antt =====
-- lib/abort.ts: waitForTurnSettlement.
use operator_oss.Base.{
  ℕ, zero, suc, ◌+◌, ◌*◌, ◌/◌, ◌≤◌, ◌≡◌, true, false, String, arith, leb, Bool-cases, ◌⊎◌, inl, inr,
  leb→le,
}
use native.Mathlib.Numerals.{towards_suc}
use operator_oss.Turns.{
  Registry, Settlement, settled, timed_out, has_turn, poll_settlement, wait_for_turn_settlement,
}

module _ (id : String) (clock : ℕ → ℕ) (world : ℕ → Registry) where
  -- The sleep between two polls takes at least its 25 ms.
  abbrev pub Sleeps : Type 0
  Sleeps = (i : ℕ) → clock i + 25 ≤ clock (i + 1)

  -- What the wait promises: the slot was seen free, or it was still taken at the deadline.
  abbrev pub Ends : ℕ → Settlement → Type 0
  Ends deadline r =
      ((r ≡ settled) × ((i : ℕ) × (has_turn id (world i) ≡ false)))
      ⊎ ((r ≡ timed_out) × ((i : ℕ) × (has_turn id (world i) ≡ true) × (deadline ≤ clock i)))

  poll-Ends :
      Sleeps
      → (deadline fuel i : ℕ) → deadline ≤ clock i + 25 * fuel
      → Ends deadline (poll_settlement id clock world deadline (suc fuel) i)
  unfolding poll_settlement
  poll-Ends t deadline zero i h = elim (Bool-cases (has_turn id (world i))) [
    | inr free ↦ inl (rw free, (i, free))
    | inl live ↦ inr (ground arith, (i, live, omega arith))
  ]
  poll-Ends t deadline (suc fuel) i h = elim (Bool-cases (has_turn id (world i))) [
    | inr free ↦ inl (rw free, (i, free))
    | inl live ↦ elim (Bool-cases (leb deadline (clock i))) [
      | inl late ↦ inr (rw (live, late), (i, live, leb→le deadline (clock i) late))
      | inr early ↦ rw (live, early) (poll-Ends t deadline fuel (i + 1) (ground (arith, t i)))
    ]
  ]

  -- Where each sleep takes its 25 ms, `timeout_ms / 25 + 2` polls are enough: the wait ends, and
  -- either saw the slot free, or found it taken when the time since the first poll was used up.
  pub wait_for_turn_settlement-Ends :
      Sleeps
      → (timeout_ms : ℕ)
      → Ends
          (clock 0 + timeout_ms)
          (wait_for_turn_settlement id timeout_ms clock world (timeout_ms / 25 + 2))
  unfolding wait_for_turn_settlement
  wait_for_turn_settlement-Ends t timeout_ms =
      simp towards_suc (poll-Ends t (clock 0 + timeout_ms) (suc (timeout_ms / 25)) 0 (omega arith))
