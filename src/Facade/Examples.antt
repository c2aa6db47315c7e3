-- ===== src/Facade/Examples.antt =====
-- The theorems on the configuration given to `init` and on coroutines at concrete inputs.
use open_coroutine.Base.{ℕ, ◌+◌, ◌-◌, ◌≡◌, ◌↔◌, refl, [], Option, some, none, u64_max, arith}
use open_coroutine.Queue.Deques.{Injectors}
use open_coroutine.Queue.Instances.{list_injectors}
use open_coroutine.Pool.Defs
use open_coroutine.Pool.Task.{Task as PoolTask, Outcome, run}
use open_coroutine.Net.Config
use open_coroutine.Net.Config.{Config, IsSound}
use open_coroutine.Net.EventLoop.{EventLoop, Waited, count}
use open_coroutine.Net.Join
use open_coroutine.Net.Comes.{Comes}
use open_coroutine.Net.Registry.{pollers, unwatched}
use open_coroutine.Facade.Init.{init_config, init_config-IsSound}
use open_coroutine.Facade.Task
use open_coroutine.Facade.Task.{Heap, Gives, co, co_main, coroutine_join}

-- The default configuration of a machine with four processors, and with one.
abbrev of_four : Config
of_four = Config.default 4 131072

abbrev of_one : Config
of_one = Config.default 1 131072

init_config-IsSound_example :
    ((init_config of_four of_one ≡ some of_four) ↔ IsSound of_four)
    × ((init_config of_four of_one ≡ none) ↔ (IsSound of_four → ⊥))
init_config-IsSound_example = init_config-IsSound of_four of_one

abbrev above : ℕ → ℕ
above n = n + 1

-- What is leaked stands at the address 4096.
abbrev inputs : Heap ((ℕ → ℕ) × ℕ)
inputs = record { leak = λ x. 4096; read = λ a. (above, 6) }

abbrev results : Heap ℕ
results = record { leak = λ x. 8192; read = λ a. 7 }

abbrev tasks : Injectors PoolTask
tasks = list_injectors

abbrev Loop : Type 0
Loop = EventLoop tasks pollers

-- An event loop without a thread, to which the task is submitted, and whose turns are a worker's.
abbrev fresh_loop : Loop
fresh_loop = record { pool = Defs.init tasks [] 0 2 100; selector = unwatched }

abbrev submitted : Loop
submitted =
    (Join.submit_raw tasks pollers (co tasks pollers inputs results 3 above 6 65536) fresh_loop).0

abbrev works : ℕ → Loop → Loop × Waited
works timeout l = (record l { pool = (Defs.work tasks 4 0 0 l.pool).0 }, count 0)

abbrev no_thread : ℕ → Loop → Loop × Option Outcome
no_thread timeout l = (l, none)

found_at_once :
    Comes tasks pollers works no_thread 3
      (run (co tasks pollers inputs results 3 above 6 65536)).1
      0
      (u64_max - 1000)
      submitted
unfolding co co_main Join.submit_raw Defs.submit_raw Defs.work Defs.try_run Defs.pop Defs.pop_loop
found_at_once = Comes.by_turn (omega arith) refl refl refl

join-co_example :
    Gives tasks pollers inputs results 7
      (coroutine_join tasks pollers works no_thread 5 3 1000 submitted)
join-co_example =
    Task.join-co tasks pollers inputs results works no_thread 3 65536 5 0 1000 above 6 submitted
      (record { same = refl; positive = omega arith; small = omega arith })
      (record { same = refl; positive = omega arith; small = omega arith }) (λ e. ground (arith, e))
      found_at_once (omega arith)
