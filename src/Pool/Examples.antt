-- ===== src/Pool/Examples.antt =====
-- Tests of the pool, and its theorems at concrete inputs.
use open_coroutine.Base.{ℕ, ◌-◌, refl, List, [], ◌∷◌, Bool, true, false, none, some, arith}
use open_coroutine.Timer.Deadline.{get_timeout_time}
use open_coroutine.Queue.Deques.{Injectors}
use open_coroutine.Queue.Instances.{list_injectors}
use open_coroutine.Pool.Task.{Task, returns, panics}
use open_coroutine.Pool.Defs
use open_coroutine.Pool.Defs.{Pool, PoolState, Pause}
use open_coroutine.Pool.Work
use open_coroutine.Pool.Bounds
use open_coroutine.Pool.Size
use open_coroutine.Pool.Size.{
  Crew, Action, submits, grows, turns, in_syscall, takes, sets_max, changes,
}
use open_coroutine.Pool.Crew
use open_coroutine.Pool.Lifecycle
use open_coroutine.Pool.Lifecycle.{Schedule, left_time, failed}
use open_coroutine.Pool.Stopping
use open_coroutine.Pool.Join
use open_coroutine.Pool.Waiting

abbrev queues : Injectors Task
queues = list_injectors

abbrev double : Task
double = record { name = 1; func = λ param. returns param; param = some 21 }

abbrev broken : Task
broken = record { name = 2; func = λ param. panics none; param = none }

abbrev two_tasks : List Task
two_tasks = double ∷ broken ∷ []

abbrev fresh_pool : Pool queues
fresh_pool = Defs.init queues [] 0 2 100

abbrev loaded : Pool queues
loaded = record fresh_pool { task_queue = two_tasks; running = 1 }

work-WorksOff_example : Work.WorksOff queues two_tasks loaded (Defs.work queues 3 0 200 loaded)
work-WorksOff_example =
    Work.work-WorksOff queues two_tasks 3 0 200 loaded (omega arith) refl (refl, (refl, tt))

work-Paused_example : Bounds.Paused queues 0 200 loaded (Defs.work queues 3 0 200 loaded)
work-Paused_example = Bounds.work-Paused queues 3 0 200 loaded

abbrev some_actions : List Action
some_actions =
    submits double
    ∷ submits broken
    ∷ submits double
    ∷ grows true true
    ∷ turns 9 0 50 true false
    ∷ sets_max 4
    ∷ in_syscall true
    ∷ takes 1
    ∷ changes PoolState.running
    ∷ []

abbrev no_crew : Crew queues
no_crew = record { pool = fresh_pool; alive = 0 }

no_crew-Manned : Crew.Manned queues 4 no_crew
unfolding Crew.Manned
no_crew-Manned = (refl, omega arith, omega arith)

acts-Manned_example : Crew.Manned queues 4 (Size.acts queues some_actions no_crew)
acts-Manned_example =
    Crew.acts-Manned queues 4 some_actions no_crew
      (tt, (tt, (tt, (tt, (tt, (omega arith, (tt, (tt, (tt, tt))))))))) no_crew-Manned

abbrev halving : ℕ → Pool queues → Pool queues × Schedule
halving d p = (p, left_time (d - 1))

halving-Keeps : Stopping.Keeps queues halving
unfolding Stopping.Keeps
halving-Keeps = (λ d p. refl, λ d l p e. ground arith)

abbrev schedule_all : Pool queues → Pool queues × Schedule
schedule_all p = (record p { task_queue = [] }, left_time 5)

abbrev never_waited : Pool queues → Pool queues × Bool
never_waited p = (p, true)

stop-EndsWell_example :
    Stopping.EndsWell queues (Lifecycle.stop queues halving never_waited 6 5 fresh_pool)
stop-EndsWell_example =
    Stopping.stop-EndsWell queues halving never_waited 6 5 fresh_pool halving-Keeps (omega arith)
      refl

abbrev stopping_pool : Pool queues
stopping_pool = record loaded { state = PoolState.stopping true }

wait_result-Gets_example :
    Waiting.Gets queues
      (broken ∷ [])
      []
      double
      (record loaded { task_queue = broken ∷ double ∷ [] })
      (Join.wait_result queues
        (λ p. p)
        true
        2
        (λ n. 0)
        1
        1000
        (record loaded { task_queue = broken ∷ double ∷ [] }))
unfolding get_timeout_time
wait_result-Gets_example =
    Waiting.wait_result-Gets queues (λ p. p) (broken ∷ []) [] double 2 1000 (λ n. 0)
      (record loaded { task_queue = broken ∷ double ∷ [] }) refl (refl, (refl, tt)) (refl, tt) refl
      (λ n. omega arith) (omega arith)
