-- ===== src/Net/Rounds.antt =====
-- How the rounds of wait_result and of stop end in open-coroutine-core/src/net/event_loop.rs.
use open_coroutine.Base.{
  ℕ, zero, suc, ◌-◌, ◌*◌, ◌≤◌, ◌<◌, ◌≡◌, refl, ap, inl, inr, ◌==◌, min, if◌then◌else◌, Bool, true,
  false, ◌&&◌, Option, none, some, Bool-cases, ==→eq, arith,
}
use open_coroutine.Queue.Deques.{Injectors}
use open_coroutine.Pool.Task.{Task, Outcome}
use open_coroutine.Pool.Defs
use open_coroutine.Pool.Defs.{Pool, PoolState}
use open_coroutine.Pool.Lifecycle.{is_running, is_stopped}
use open_coroutine.Net.Selector.{Pollers}
use open_coroutine.Net.EventLoop
use open_coroutine.Net.EventLoop.{
  EventLoop, Waited, count, error, panics, Ended, result, stopped, timed_out, fails, breaks, once,
}

module _ (injectors : Injectors Task) (pollers : Pollers) where
  -- The loop is not running any more; where stop succeeded the pool is stopped, with no task waiting
  -- and no worker.
  abbrev pub Settled : EventLoop.Run injectors pollers → Type 0
  Settled none = ⊥
  Settled (some (l, stopped)) =
      (l.pool.state ≡ PoolState.stopped)
      × (Defs.is_empty injectors l.pool ≡ true)
      × (l.pool.running ≡ 0)
  Settled (some (l, result r)) = Unit
  Settled (some (l, timed_out)) = Unit
  Settled (some (l, fails)) = Unit
  Settled (some (l, breaks)) = Unit

  both : (a b : Bool) → (a && b) ≡ true → (a ≡ true) × (b ≡ true)
  both a b e = ground arith

  checked-Settled :
      (again : EventLoop injectors pollers → EventLoop.Run injectors pollers)
      (w : EventLoop injectors pollers × Waited)
      → ((l : EventLoop injectors pollers) → Settled (again l))
      → Settled (EventLoop.checked injectors pollers again w)
  checked-Settled again (l, error) goes_on = tt
  checked-Settled again (l, panics) goes_on = tt
  checked-Settled again (l, count n) goes_on =
      elim (Bool-cases (EventLoop.is_over injectors pollers l)) [
        | inl over ↦
            let (empty, gone) = both (Defs.is_empty injectors l.pool) (l.pool.running == 0) over in
            rw (over) (refl, empty, ==→eq l.pool.running 0 gone)
        | inr more ↦ rw (more) (goes_on l)
      ]

  at_once : (left : ℕ) → left ≤ 0 * once → (left == 0) ≡ true
  at_once left h = ground arith

  stop_rounds-Settled :
      (turn : ℕ → EventLoop injectors pollers → EventLoop injectors pollers × Waited)
      (n fuel left : ℕ) (l : EventLoop injectors pollers)
      → left ≤ n * once
      → n < fuel
      → Settled (EventLoop.stop_rounds injectors pollers turn fuel left l)
  unfolding EventLoop.stop_rounds
  stop_rounds-Settled turn n zero left l h enough = absurd (omega arith)
  stop_rounds-Settled turn zero (suc fuel) left l h enough = rw (at_once left h) tt
  stop_rounds-Settled turn (suc n) (suc fuel) left l h enough = elim (Bool-cases (left == 0)) [
    | inl over ↦ rw (over) tt
    | inr more ↦ rw (more) (
        checked-Settled (EventLoop.stop_rounds injectors pollers turn fuel (left - once))
          (turn (min left once) l)
          (λ l'. stop_rounds-Settled turn n fuel (left - once) l' (omega arith) (omega arith)))
  ]

  -- stop of a loop without a thread of its own ends within one round more than the ten milliseconds
  -- that its time is worth, whatever the rounds do; where it succeeds the pool is stopped, no task
  -- waits and no worker runs.
  pub stop-Settled :
      (pool_stop : Pool injectors → Pool injectors)
      (turn : ℕ → EventLoop injectors pollers → EventLoop injectors pollers × Waited)
      (waited : EventLoop injectors pollers → EventLoop injectors pollers × Bool) (pending : Bool)
      (n fuel wait_time : ℕ) (l : EventLoop injectors pollers)
      → l.pool.state ≡ PoolState.created
      → wait_time ≤ n * once
      → n < fuel
      → Settled (EventLoop.stop injectors pollers pool_stop turn waited pending fuel wait_time l)
  unfolding EventLoop.stop
  stop-Settled pool_stop turn waited pending n fuel wait_time l e h enough =
      rw (ap is_stopped e)
        (rw (ap is_running e) (stop_rounds-Settled turn n fuel wait_time _ h enough))

  -- stop of a loop that runs on a thread of its own, with the flag that was created with the loop, does
  -- not wait: it succeeds with the pool as asking it to stop left it, whatever tasks wait in it and
  -- whatever workers run.
  pub stop_unwaited :
      (pool_stop : Pool injectors → Pool injectors)
      (turn : ℕ → EventLoop injectors pollers → EventLoop injectors pollers × Waited)
      (waited : EventLoop injectors pollers → EventLoop injectors pollers × Bool)
      (fuel wait_time : ℕ) (l : EventLoop injectors pollers)
      → l.pool.state ≡ PoolState.running
      → EventLoop.stop injectors pollers pool_stop turn waited
          (EventLoop.new_pending injectors pollers)
          fuel
          wait_time
          l
        ≡ some
            (EventLoop.finished injectors pollers (record l { pool = pool_stop l.pool }), stopped)
  unfolding EventLoop.stop
  stop_unwaited pool_stop turn waited fuel wait_time l e =
      rw (ap is_stopped e) (rw (ap is_running e) refl)

  -- The wait has come to an end.
  abbrev pub Returns : EventLoop.Run injectors pollers → Type 0
  Returns none = ⊥
  Returns (some e) = Unit

  found-Returns :
      (again : EventLoop injectors pollers → EventLoop.Run injectors pollers)
      (l : EventLoop injectors pollers) (f : Pool injectors × Option Outcome)
      → ((l' : EventLoop injectors pollers) → Returns (again l'))
      → Returns (EventLoop.found injectors pollers again l f)
  found-Returns again l (p, some r) goes_on = tt
  found-Returns again l (p, none) goes_on = goes_on (record l { pool = p })

  fetched-Returns :
      (again : EventLoop injectors pollers → EventLoop.Run injectors pollers) (name : ℕ)
      (w : EventLoop injectors pollers × Waited)
      → ((l' : EventLoop injectors pollers) → Returns (again l'))
      → Returns (EventLoop.fetched injectors pollers again name w)
  fetched-Returns again name (l, error) goes_on = tt
  fetched-Returns again name (l, panics) goes_on = tt
  fetched-Returns again name (l, count n) goes_on = found-Returns again l _ goes_on

  by_thread-Returns :
      (again : EventLoop injectors pollers → EventLoop.Run injectors pollers)
      (w : EventLoop injectors pollers × Option Outcome)
      → ((l' : EventLoop injectors pollers) → Returns (again l'))
      → Returns (EventLoop.fetched_by_thread injectors pollers again w)
  by_thread-Returns again (l, some r) goes_on = tt
  by_thread-Returns again (l, none) goes_on = goes_on l

  either_run :
      (b : Bool) (x y : EventLoop.Run injectors pollers)
      → Returns x
      → Returns y
      → Returns (if b then x else y)
  either_run true x y hx hy = hx
  either_run false x y hx hy = hy

  -- wait_result ends within one round more than the ten milliseconds that its time is worth, with or
  -- without a result, whatever the rounds do.
  pub wait_rounds-Returns :
      (turn : ℕ → EventLoop injectors pollers → EventLoop injectors pollers × Waited)
      (on_thread : ℕ → EventLoop injectors pollers → EventLoop injectors pollers × Option Outcome)
      (name n fuel left : ℕ) (l : EventLoop injectors pollers)
      → left ≤ n * once
      → n < fuel
      → Returns (EventLoop.wait_rounds injectors pollers turn on_thread name fuel left l)
  unfolding EventLoop.wait_rounds
  wait_rounds-Returns turn on_thread name n zero left l h enough = absurd (omega arith)
  wait_rounds-Returns turn on_thread name zero (suc fuel) left l h enough = rw (at_once left h) tt
  wait_rounds-Returns turn on_thread name (suc n) (suc fuel) left l h enough =
      let goes_on : (l' : EventLoop injectors pollers)
          → Returns
              (EventLoop.wait_rounds injectors pollers turn on_thread name fuel (left - once) l') =
        λ l'.
          wait_rounds-Returns turn on_thread name n fuel (left - once) l' (omega arith)
            (omega arith) in
      either_run (left == 0) _ _ tt (
        either_run (is_running l.pool.state) _ _
          (by_thread-Returns
            (EventLoop.wait_rounds injectors pollers turn on_thread name fuel (left - once)) _
            goes_on)
          (fetched-Returns
            (EventLoop.wait_rounds injectors pollers turn on_thread name fuel (left - once)) name _
            goes_on))
