-- ===== src/Tests/NavRuns.antt =====
-- The browser history on a page that opens a project and selects a task twice.
use operator_oss.Base.{
  ◌+◌, ◌≤◌, ◌≡◌, refl, true, false, some, none, List, [], ◌∷◌, String, arith, length,
}
use operator_oss.Nav.{NavSel, Entry, workspace, close_one_level}
use operator_oss.Nav.Back.{renders, armed_count, renders_add_one}

abbrev no_query : List (String × String) → String
no_query ps = ""

abbrev project : NavSel
project = record { proj = some "p"; task = none; view = workspace }

abbrev task : NavSel
task = record { proj = some "p"; task = some "t"; view = workspace }

abbrev page : List Entry
page = record { trap = false; url = "/" } ∷ []

renders_add_one_example :
    (length (renders no_query "/" ((project, true) ∷ (task, true) ∷ (project, true) ∷ []) page)
        + armed_count page
      ≡ length page
        + armed_count
            (renders no_query "/" ((project, true) ∷ (task, true) ∷ (project, true) ∷ []) page))
    × (armed_count page
        ≤ armed_count
            (renders no_query "/" ((project, true) ∷ (task, true) ∷ (project, true) ∷ []) page))
    × (length (renders no_query "/" ((project, true) ∷ (task, true) ∷ (project, true) ∷ []) page)
        ≤ length page + 1)
renders_add_one_example =
    renders_add_one no_query "/" ((project, true) ∷ (task, true) ∷ (project, true) ∷ []) page
      (omega arith)

closed : close_one_level task ≡ project
unfolding close_one_level
closed = refl
