-- ===== src/Nav/Back.antt =====
-- app/orchestrator/navHistory.ts: re-selecting adds no entries, and the trap is one entry.
use operator_oss.Base.{
  ℕ, ◌+◌, ◌≤◌, ◌≡◌, refl, Bool, List, [], ◌∷◌, String, if◌then◌else◌, arith, length,
}
use operator_oss.Nav.{NavSel, Entry, trap_armed, reconcile_history}

-- Every render reconciles the history with its selection.
unfoldable pub renders :
    (List (String × String) → String) → String → List (NavSel × Bool) → List Entry → List Entry
renders encode pathname [] h = h
renders encode pathname ((sel, arm) ∷ rs) h =
    renders encode pathname rs (reconcile_history encode pathname sel arm h)

-- 1 where the current entry has the trap.
abbrev pub armed_count : List Entry → ℕ
armed_count h = if trap_armed h then 1 else 0

module _ (encode : List (String × String) → String) (pathname : String) where
  reconcile_history_counts :
      (sel : NavSel) (arm : Bool) (h : List Entry)
      → 1 ≤ length h
      → (length (reconcile_history encode pathname sel arm h) + armed_count h
          ≡ length h + armed_count (reconcile_history encode pathname sel arm h))
        × (1 ≤ length (reconcile_history encode pathname sel arm h))
        × (armed_count h ≤ armed_count (reconcile_history encode pathname sel arm h))
  unfolding reconcile_history trap_armed
  reconcile_history_counts sel arm [] p = ground arith
  reconcile_history_counts sel arm (e ∷ h) p = ground arith

  -- However often the selection changes under a page, its history grows by the one trap entry at
  -- most: it has one entry more exactly where the current entry got the trap, a trap that stood on
  -- top stays there, and no later change adds an entry above it.
  pub renders_add_one :
      (rs : List (NavSel × Bool)) (h : List Entry)
      → 1 ≤ length h
      → (length (renders encode pathname rs h) + armed_count h
          ≡ length h + armed_count (renders encode pathname rs h))
        × (armed_count h ≤ armed_count (renders encode pathname rs h))
        × (length (renders encode pathname rs h) ≤ length h + 1)
  unfolding renders
  renders_add_one [] h p = (refl, omega arith, omega arith)
  renders_add_one ((sel, arm) ∷ rs) h p =
      let one = reconcile_history_counts sel arm h p in
      let rest = renders_add_one rs (reconcile_history encode pathname sel arm h) one.1 in
      ground (arith, one.0, one.2, rest.0, rest.1, rest.2)
