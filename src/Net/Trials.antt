-- ===== src/Net/Trials.antt =====
-- Tests of an event loop and of the threads of several, and their theorems at concrete inputs.
use open_coroutine.Base.{
  ℕ, zero, suc, ◌<◌, ◌≤◌, ◌≡◌, refl, List, [], ◌∷◌, Option, Bool, none, true, false, arith, All,
}
use open_coroutine.Queue.Deques.{Injectors}
use open_coroutine.Queue.Instances.{list_injectors}
use open_coroutine.Pool.Task.{Task, Outcome}
use open_coroutine.Pool.Defs.{PoolState, init}
use open_coroutine.Net.EventLoop
use open_coroutine.Net.EventLoop.{EventLoop}
use open_coroutine.Net.Rounds
use open_coroutine.Net.Join
use open_coroutine.Net.Exit
use open_coroutine.Net.Exit.{Exit, Move, runs, others, moves, start, goes_on, advance, spawned}
use open_coroutine.Net.Exited
use open_coroutine.Net.Exited.{IsOver}
use open_coroutine.Net.Leaving
use open_coroutine.Net.Leaving.{times_of}
use open_coroutine.Net.Registry.{pollers, unwatched}

abbrev tasks : Injectors Task
tasks = list_injectors

abbrev idle_loop : EventLoop tasks pollers
idle_loop = record { pool = init tasks [] 0 2 100; selector = unwatched }

abbrev running_loop : EventLoop tasks pollers
running_loop = record {
  pool = record (init tasks [] 0 2 100) { state = PoolState.running; running = 1 };
  selector = unwatched;
}

abbrev quiet : ℕ → EventLoop tasks pollers → EventLoop tasks pollers × EventLoop.Waited
quiet timeout l = (l, EventLoop.count 0)

abbrev at_once : EventLoop tasks pollers → EventLoop tasks pollers × Bool
at_once l = (l, true)

abbrev nothing_there : ℕ → EventLoop tasks pollers → EventLoop tasks pollers × Option Outcome
nothing_there timeout l = (l, none)

stop-Settled_example :
    Rounds.Settled tasks pollers
      (EventLoop.stop tasks pollers (λ p. p) quiet at_once false 3 15000000 idle_loop)
stop-Settled_example =
    Rounds.stop-Settled tasks pollers (λ p. p) quiet at_once false 2 3 15000000 idle_loop refl
      (omega arith) (omega arith)

timeout_at_join-Ends_example :
    Join.Ends tasks pollers 7 idle_loop
      (EventLoop.wait_rounds tasks pollers quiet nothing_there 7 3 15000000 idle_loop)
      (Join.timeout_at_join tasks pollers quiet nothing_there 3 7 25000000 10000000 idle_loop)
timeout_at_join-Ends_example =
    Join.timeout_at_join-Ends tasks pollers quiet nothing_there 2 3 7 25000000 10000000 idle_loop
      (omega arith) (omega arith)

-- A loop that is told to stop.
abbrev told : EventLoop tasks pollers → EventLoop tasks pollers
told l = record l { pool = record l.pool { state = PoolState.stopping true } }

abbrev idles : EventLoop tasks pollers → EventLoop tasks pollers
idles l = l

-- Two threads run on, each is told to stop, and each comes to its end.
abbrev departures : List (Move tasks pollers)
departures =
    runs 0 idles
    ∷ others 1 told
    ∷ others 0 told
    ∷ runs 1 idles
    ∷ runs 0 idles
    ∷ runs 1 idles
    ∷ runs 0 idles
    ∷ runs 0 idles
    ∷ runs 1 idles
    ∷ []

abbrev of_two : Exit tasks pollers
of_two = record { stopped = 0; runners = spawned tasks pollers (idle_loop ∷ idle_loop ∷ []) }

abbrev left_by_two : Exit tasks pollers
left_by_two = moves tasks pollers departures of_two

all_counted : Exit.waits_on tasks pollers 3 left_by_two ≡ false
unfolding moves Exit.move advance spawned start Exit.waits_on
all_counted = refl

waits_on-IsOver_example : All (λ r. IsOver tasks pollers r.stage) left_by_two.runners
waits_on-IsOver_example =
    Exited.waits_on-IsOver tasks pollers 3 (idle_loop ∷ idle_loop ∷ []) departures refl all_counted

-- Both are told to stop, and nothing else has happened.
abbrev told_both : Exit tasks pollers
told_both = moves tasks pollers (others 0 told ∷ others 1 told ∷ []) of_two

abbrev turns : List ℕ
turns = 0 ∷ 1 ∷ 1 ∷ 0 ∷ 0 ∷ 1 ∷ []

both_turn : (i : ℕ) → i < 2 → 3 ≤ times_of i turns
both_turn zero lt = omega arith
both_turn (suc zero) lt = omega arith
both_turn (suc (suc i)) lt = absurd (omega arith)

nothing_left : Leaving.Done tasks pollers told_both.runners
unfolding moves Exit.move spawned start
nothing_left = (refl, (refl, tt))

moves-waits_on_example :
    Exit.waits_on tasks pollers 3
      (moves tasks pollers (Leaving.in_order tasks pollers idles turns) told_both)
    ≡ false
moves-waits_on_example =
    Leaving.moves-waits_on tasks pollers 3 (idle_loop ∷ idle_loop ∷ [])
      (others 0 told ∷ others 1 told ∷ []) idles turns told_both refl refl nothing_left both_turn
