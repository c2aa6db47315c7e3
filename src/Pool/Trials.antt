-- ===== src/Pool/Trials.antt =====
-- Runs of a pool on a thread of its own, and the theorems about it at them.
use open_coroutine.Base.{refl, [], true, false}
use open_coroutine.Queue.Deques.{Injectors}
use open_coroutine.Queue.Instances.{list_injectors}
use open_coroutine.Pool.Task.{Task}
use open_coroutine.Pool.Defs
use open_coroutine.Pool.Defs.{Pool, PoolState}
use open_coroutine.Pool.Lifecycle
use open_coroutine.Pool.Lifecycle.{left_time, done, timed_out, panics}
use open_coroutine.Pool.Consumer
use open_coroutine.Pool.Consumer.{
  System, system, looks, runs, gone, broken, outside, ended, by, Scheduling, finds_running,
  finds_stopping, turns, finds_none, lowers, asks, schedules, orders, wakes, gives_up, ends, Reach,
  starts, later, start,
}
use open_coroutine.Pool.Consumed
use open_coroutine.Pool.Consumed.{Orderly}

abbrev queues : Injectors Task
queues = list_injectors

abbrev fresh_pool : Pool queues
fresh_pool = Defs.init queues [] 0 2 100

abbrev in_state : PoolState → Pool queues
in_state state = record fresh_pool { state = state }

-- A scheduling of a pool without a task, in which nothing happens.
quiet : (state : PoolState) → Scheduling queues (in_state state) (in_state state) (left_time 5)
unfolding Lifecycle.try_timeout_schedule Defs.grow
quiet PoolState.created = by (λ q. (q, left_time 5)) false 7 0 9 (λ q. refl)
quiet PoolState.running = by (λ q. (q, left_time 5)) false 7 0 9 (λ q. refl)
quiet (PoolState.stopping thread) = by (λ q. (q, left_time 5)) false 7 0 9 (λ q. refl)
quiet PoolState.stopped = by (λ q. (q, left_time 5)) false 7 0 9 (λ q. refl)

module _ {again late : Type 0} where
  -- The thread finds the pool running, and `stop` is called meanwhile.
  ordered :
      Reach queues again late fresh_pool
        (system (in_state (PoolState.stopping true)) true runs Consumer.waits)
  unfolding start
  ordered =
      later
        (later (later (later (starts refl) (finds_running refl)) (asks tt refl))
          (schedules (quiet PoolState.running)))
        (orders refl refl)

  -- `stop` waits until the thread is at its end.
  stopped_at_last :
      Reach queues again late fresh_pool
        (system (in_state PoolState.stopped) false gone (ended done))
  stopped_at_last =
      later
        (later
          (later
            (later
              (later (later ordered (turns (quiet (PoolState.stopping true))))
                (finds_stopping refl))
              (finds_none refl))
            lowers)
          wakes)
        (ends refl)

  -- `stop` times out while the thread schedules.
  given_up :
      Reach queues again late fresh_pool
        (system (in_state (PoolState.stopping true)) true runs (ended timed_out))
  given_up = later ordered gives_up

Reach-Orderly_example : Orderly queues (system (in_state PoolState.stopped) false gone (ended done))
Reach-Orderly_example =
    Consumed.Reach-Orderly queues {p = fresh_pool}
      (system (in_state PoolState.stopped) false gone (ended done)) stopped_at_last

second_stop-breaks_example :
    Reach queues
      (Unit {0})
      (Unit {0})
      fresh_pool
      (system (in_state (PoolState.stopping false)) true broken (ended panics))
second_stop-breaks_example =
    Consumed.second_stop-breaks queues fresh_pool (in_state (PoolState.stopping true))
      (in_state (PoolState.stopping true)) 5 5 tt refl (quiet (PoolState.stopping true))
      (quiet (PoolState.stopping false)) given_up
