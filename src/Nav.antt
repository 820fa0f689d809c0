-- ===== src/Nav.antt =====
-- app/orchestrator/navHistory.ts: the browser history behind the panes, and the Back button. The
-- history is the list of its entries up to the current one, which is first; `encode` is the text of a
-- URLSearchParams with these entries.
pub mod Back
use operator_oss.Base.{
  Bool, true, false, not, ◌&&◌, ◌||◌, Option, none, some, List, [], ◌∷◌, ◌++◌, String, str_eq,
  if◌then◌else◌,
}
use Prim.Native.String.{◌++◌ as append}

pub data View : Type 0 where
  workspace settings insights quota : View

pub record NavSel : Type 0 where
  pub proj : Option String
  pub task : Option String
  pub view : View

-- An entry: its state's trap flag and its URL.
pub record Entry : Type 0 where
  pub trap : Bool
  pub url : String

abbrev pub is_overlay : View → Bool
is_overlay settings = true
is_overlay insights = true
is_overlay _ = false

-- JavaScript's `!!s`.
abbrev pub is_set : Option String → Bool
is_set none = false
is_set (some s) = not (str_eq s "")

abbrev view_name : View → String
view_name workspace = "workspace"
view_name settings = "settings"
view_name insights = "insights"
view_name quota = "quota"

abbrev param : String → Option String → List (String × String)
param name none = []
param name (some s) = if str_eq s "" then [] else (name, s) ∷ []

unfoldable pub selection_url : (List (String × String) → String) → NavSel → String → String
selection_url encode sel pathname =
    let s = encode (
      param "project" sel.proj
      ++ (param "task" sel.task
          ++ (if is_overlay sel.view then ("view", view_name sel.view) ∷ [] else []))) in
    if str_eq s "" then pathname else append "?" s

unfoldable pub is_deep : NavSel → Bool
is_deep sel = is_set sel.proj || is_overlay sel.view

unfoldable pub trap_armed : List Entry → Bool
trap_armed [] = false
trap_armed (e ∷ h) = e.trap

-- `history.replaceState`.
abbrev replace_state : Entry → List Entry → List Entry
replace_state e [] = e ∷ []
replace_state e (old ∷ h) = e ∷ h

unfoldable pub reconcile_history :
    (List (String × String) → String) → String → NavSel → Bool → List Entry → List Entry
unfolding trap_armed is_deep
reconcile_history encode pathname sel arm_trap h =
    let url = selection_url encode sel pathname in
    let armed = trap_armed h in
    if arm_trap && (is_deep sel && not armed)
    then record { trap = true; url = url } ∷ h
    else replace_state (record { trap = armed; url = url }) h

unfoldable pub close_one_level : NavSel → NavSel
close_one_level sel =
    if is_overlay sel.view
    then record sel { view = workspace }
    else if is_set sel.task
    then record sel { task = none }
    else if is_set sel.proj
    then record sel { proj = none }
    else sel
