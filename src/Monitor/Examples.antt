-- ===== src/Monitor/Examples.antt =====
-- Tests of the monitor, and its theorems at concrete inputs.
use open_coroutine.Base.{ℕ, ◌≡◌, ◌==◌, refl, List, [], ◌∷◌, Bool, arith}
use open_coroutine.Timer.Deadline.{get_timeout_time}
use open_coroutine.Timer.Entry.{SearchResult, found}
use open_coroutine.Timer.Queue.{TimerList}
use open_coroutine.Timer.Order.{events}
use open_coroutine.Monitor.Defs.{TaskNode, node, scan, turn}
use open_coroutine.Monitor.Signals.{due_running, scan-due_running}
use open_coroutine.Monitor.Leaks.{alone, life, life-turn}

abbrev watched : TimerList TaskNode
watched =
    (10, alone 10 (node 10 1 7)) ∷ (20, alone 20 (node 20 1 8)) ∷ (30, alone 30 (node 30 2 7)) ∷ []

abbrev only_seven : ℕ → Bool
only_seven c = c == 7

scan-due_running_example :
    scan (λ i. 25) only_seven watched ≡ due_running 25 only_seven (events watched)
scan-due_running_example =
    scan-due_running 25 only_seven watched (omega arith, (omega arith, (omega arith, tt)))

signalled : due_running 25 only_seven (events watched) ≡ node 10 1 7 ∷ []
unfolding events
signalled = refl

abbrev find_first : List TaskNode → TaskNode → SearchResult
find_first nodes n = found 0

life-turn_example :
    (turn find_first (λ i. 100) only_seven ((life 5 100 200 300 1 7).1)).0.tasks
    ≡ (100, alone 100 (node 100 1 7)) ∷ []
unfolding get_timeout_time
life-turn_example = life-turn find_first (λ i. 100) only_seven 5 100 200 300 1 7 (omega arith) refl
