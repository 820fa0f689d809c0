-- ===== src/Tests/AskRuns.antt =====
-- lib/asks.ts on a concrete sequence: two asks of one turn are parked on the signal of controller 0.
use operator_oss.Base.{some, List, [], ◌∷◌, String}
use operator_oss.Asks.{Listener, Asks, no_asks}
use operator_oss.Asks.Invariant.{Op, waits, aborts, run, IsSound, run-IsSound}

abbrev two_waits : List (Op String String)
two_waits =
    waits "a" "x" "which?" (some 0)
    ∷ waits "a" "y" "why?" (some 0)
    ∷ waits "a" "x" "which?" (some 0)
    ∷ []

abbrev parked : Asks String String
parked = run two_waits no_asks

parked-IsSound : IsSound parked
parked-IsSound = run-IsSound two_waits

run-IsSound_example :
    IsSound {Q = String} {A = String}
      (run (waits "a" "x" "which?" (some 0) ∷ aborts 0 ∷ []) no_asks)
run-IsSound_example = run-IsSound (waits "a" "x" "which?" (some 0) ∷ aborts 0 ∷ [])

abbrev listener : Listener
listener = record { signal = 0; task = "a"; ask = "x"; promise = 0 }
