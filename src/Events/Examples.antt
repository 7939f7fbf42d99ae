-- ===== src/Events/Examples.antt =====
-- packages/wazeko/src/events.ts: the theorems on the event queue at concrete calls.
use wazeko.Prelude.{ℕ, ◌≡◌, some, List, [], ◌∷◌}
use wazeko.Events.{create}
use wazeko.Events.Order.{Call, pushes, asks, closes, run, IsOrdered, run-IsOrdered}
use wazeko.Events.Fifo.{passed, run-passed}

abbrev open_calls : List (Call ℕ)
open_calls = pushes 3 ∷ asks ∷ asks ∷ pushes 4 ∷ pushes 5 ∷ []

run-IsOrdered_example : IsOrdered (run (asks ∷ closes 0 ∷ open_calls) create)
run-IsOrdered_example = run-IsOrdered (asks ∷ closes 0 ∷ open_calls)

run-passed_example : passed (run open_calls create) ≡ some 3 ∷ some 4 ∷ some 5 ∷ []
run-passed_example = run-passed open_calls (tt, (tt, (tt, (tt, (tt, tt)))))
