-- ===== src/Net/EventLoop.antt =====
-- `EventLoopImpl` of open-coroutine-core/src/net/event_loop.rs: a pool with a selector. Scheduling and
-- the other threads are parameters; times are in nanoseconds. What a wait does to the coroutine that
-- waits is in Waits.
use open_coroutine.Base.{
  ℕ, zero, suc, ◌-◌, ◌==◌, min, if◌then◌else◌, List, [], ◌∷◌, Bool, true, false, ◌&&◌, Option, none,
  some, length,
}
use open_coroutine.Queue.Deques.{Injectors}
use open_coroutine.Pool.Task.{Task, Outcome}
use open_coroutine.Pool.Defs
use open_coroutine.Pool.Defs.{Pool, PoolState}
use open_coroutine.Pool.Lifecycle.{is_running, is_stopped, Schedule, left_time, failed}
use open_coroutine.Net.Selector
use open_coroutine.Net.Selector.{Pollers, Event, Result, ok, err}

-- What a wait returns: the number of events, or an error; `panics` is the `expect` behind an event.
pub data Waited : Type 0 where
  count : ℕ → Waited
  error panics : Waited

-- How a wait for a result or a stop ends; `breaks` is a panic.
pub data Ended : Type 0 where
  result : Outcome → Ended
  stopped timed_out fails breaks : Ended

-- The ten milliseconds of a round.
abbrev pub once : ℕ
once = 10000000

module _ (injectors : Injectors Task) (pollers : Pollers) where
  pub record EventLoop : Type 0 where
    pub pool : Pool injectors
    pub selector : Selector.Selector pollers

  -- Every event resumes the coroutine that its key names, if it names one; `none` is an error there.
  abbrev pub resume_all :
      (ℕ → Option ℕ)
      → (ℕ → Pool injectors → Option (Pool injectors))
      → List Event
      → Pool injectors
      → Option (Pool injectors)
  resume_all map_name resume [] p = some p
  resume_all map_name resume (e ∷ events) p = elim (map_name e.key) [
    | none ↦ resume_all map_name resume events p
    | some name ↦ elim (resume name p) [
      | none ↦ none
      | some q ↦ resume_all map_name resume events q
    ]
  ]

  abbrev pub resumed : EventLoop → ℕ → Option (Pool injectors) → EventLoop × Waited
  resumed l n none = (l, panics)
  resumed l n (some p) = (record l { pool = p }, count n)

  abbrev pub selected :
      (ℕ → Option ℕ)
      → (ℕ → Pool injectors → Option (Pool injectors))
      → EventLoop
      → Selector.Selector pollers × List Event × Result
      → EventLoop × Waited
  selected map_name resume l (selector, events, err n) = (record l { selector = selector }, error)
  selected map_name resume l (selector, events, ok) =
      resumed (record l { selector = selector }) (length events)
        (resume_all map_name resume events l.pool)

  abbrev pub selects_for : Bool → Option ℕ → Option ℕ
  selects_for in_coroutine none = none
  selects_for in_coroutine (some time) = some (if in_coroutine then 0 else time)

  -- `wait_just` on the loop. A coroutine that was delayed selects with a timeout of zero.
  unfoldable pub wait_just :
      (ℕ → Option ℕ)
      → (ℕ → Pool injectors → Option (Pool injectors))
      → Bool
      → Option ℕ
      → EventLoop
      → EventLoop × Waited
  wait_just map_name resume in_coroutine timeout l =
      selected map_name resume l
        (Selector.select pollers (selects_for in_coroutine timeout) l.selector)

  -- `timed` is the pool's `try_timed_schedule`; without a timeout it is given the greatest duration.
  abbrev pub scheduled :
      (Option ℕ → EventLoop → EventLoop × Waited)
      → EventLoop
      → Bool
      → Pool injectors × Schedule
      → EventLoop × Waited
  scheduled just l limited (p, failed) = (record l { pool = p }, error)
  scheduled just l limited (p, left_time left) =
      just (if limited then some left else none) (record l { pool = p })

  abbrev pub is_limited : Option ℕ → Bool
  is_limited none = false
  is_limited (some t) = true

  unfoldable pub wait_event :
      (Option ℕ → Pool injectors → Pool injectors × Schedule)
      → (Option ℕ → EventLoop → EventLoop × Waited)
      → Bool
      → Option ℕ
      → EventLoop
      → EventLoop × Waited
  wait_event timed just in_coroutine timeout l =
      if in_coroutine
      then just timeout l
      else scheduled just l (is_limited timeout) (timed timeout l.pool)

  abbrev pub Run : Type 0
  Run = Option (EventLoop × Ended)

  abbrev pub found : (EventLoop → Run) → EventLoop → Pool injectors × Option Outcome → Run
  found again l (p, some r) = some (record l { pool = p }, result r)
  found again l (p, none) = again (record l { pool = p })

  -- One round of the loop of wait_result.
  abbrev pub fetched : (EventLoop → Run) → ℕ → EventLoop × Waited → Run
  fetched again name (l, error) = some (l, fails)
  fetched again name (l, panics) = some (l, breaks)
  fetched again name (l, count n) = found again l (Defs.try_get_result injectors name l.pool)

  -- The same where the loop has a thread of its own: the pool's wait_result.
  abbrev pub fetched_by_thread : (EventLoop → Run) → EventLoop × Option Outcome → Run
  fetched_by_thread again (l, some r) = some (l, result r)
  fetched_by_thread again (l, none) = again l

  -- The loop of wait_result: `turn` is `wait_event` with a timeout.
  unfoldable pub wait_rounds :
      (ℕ → EventLoop → EventLoop × Waited)
      → (ℕ → EventLoop → EventLoop × Option Outcome)
      → ℕ
      → ℕ
      → ℕ
      → EventLoop
      → Run
  wait_rounds turn on_thread name zero left l = none
  wait_rounds turn on_thread name (suc fuel) left l =
      let again = wait_rounds turn on_thread name fuel (left - once) in
      if left == 0
      then some (l, timed_out)
      else if is_running l.pool.state
      then fetched_by_thread again (on_thread (min left once) l)
      else fetched again name (turn (min left once) l)

  abbrev pub is_over : EventLoop → Bool
  is_over l = Defs.is_empty injectors l.pool && (l.pool.running == 0)

  abbrev pub finished : EventLoop → EventLoop
  finished l = record l { pool = record l.pool { state = PoolState.stopped } }

  abbrev pub checked : (EventLoop → Run) → EventLoop × Waited → Run
  checked again (l, error) = some (l, fails)
  checked again (l, panics) = some (l, breaks)
  checked again (l, count n) = if is_over l then some (finished l, stopped) else again l

  -- The loop of stop.
  unfoldable pub stop_rounds : (ℕ → EventLoop → EventLoop × Waited) → ℕ → ℕ → EventLoop → Run
  stop_rounds turn zero left l = none
  stop_rounds turn (suc fuel) left l =
      let again = stop_rounds turn fuel (left - once) in
      if left == 0 then some (l, timed_out) else checked again (turn (min left once) l)

  -- The wait for the loop's thread ends at once unless the flag `pending` is up; `waited` is the wait
  -- itself and tells whether it timed out.
  abbrev pub wait_while : Bool → (EventLoop → EventLoop × Bool) → EventLoop → EventLoop × Bool
  wait_while true waited l = waited l
  wait_while false waited l = (l, false)

  abbrev pub joined : EventLoop × Bool → Run
  joined (l, true) = some (l, timed_out)
  joined (l, false) = some (finished l, stopped)

  -- `stop`; `pool_stop` is the pool's stop without time to wait, whose result is dropped.
  unfoldable pub stop :
      (Pool injectors → Pool injectors)
      → (ℕ → EventLoop → EventLoop × Waited)
      → (EventLoop → EventLoop × Bool)
      → Bool
      → ℕ
      → ℕ
      → EventLoop
      → Run
  unfolding stop_rounds
  stop pool_stop turn waited pending fuel wait_time l =
      let asked = record l { pool = pool_stop l.pool } in
      if is_stopped l.pool.state
      then some (l, stopped)
      else if is_running l.pool.state
      then joined (wait_while pending waited asked)
      else stop_rounds turn fuel wait_time asked

  -- The flag that `new` creates, which only the loop's thread writes, and lowers.
  abbrev pub new_pending : Bool
  new_pending = false
