-- ===== src/Pool/Lifecycle.antt =====
-- Scheduling, stopping and joining of open-coroutine-core/src/pool/mod.rs and join.rs. What the
-- scheduler, the other threads and the clock do in between are parameters.
use open_coroutine.Base.{
  ◌||◌, ℕ, zero, suc, ◌-◌, ◌==◌, if◌then◌else◌, List, [], ◌∷◌, Bool, true, false, ◌&&◌, not, Option,
  none, some,
}
use open_coroutine.Queue.Deques.{Injectors}
use open_coroutine.Pool.Task.{Task, Outcome}
use open_coroutine.Pool.Defs
use open_coroutine.Pool.Defs.{Pool, PoolState, is_stopping, put, Grown, unneeded, grown, refused}

-- The result of a scheduling: the time left, or an error.
pub data Schedule : Type 0 where
  left_time : ℕ → Schedule
  failed : Schedule

-- How stop ends; `panics` is a failed assertion.
pub data Stop : Type 0 where
  done timed_out errs panics : Stop

-- How a wait for a result ends.
pub data Wait : Type 0 where
  result : Outcome → Wait
  wait_timeout invalid_input assertion : Wait

abbrev pub is_created : PoolState → Bool
is_created PoolState.created = true
is_created s = false

abbrev pub is_running : PoolState → Bool
is_running PoolState.running = true
is_running s = false

abbrev pub is_stopped : PoolState → Bool
is_stopped PoolState.stopped = true
is_stopped s = false

-- `PoolState::Stopping(thread)`.
abbrev pub is_stopping_in : Bool → PoolState → Bool
is_stopping_in true (PoolState.stopping true) = true
is_stopping_in false (PoolState.stopping false) = true
is_stopping_in thread s = false

module _ (injectors : Injectors Task) where
  -- The pool with the thread's stack of current pools.
  abbrev pub Thread : Type 0
  Thread = Pool injectors × List ℕ

  abbrev pub clean_current : List ℕ → List ℕ
  clean_current [] = []
  clean_current (p ∷ stack) = stack

  -- Whether the assertions of `Drop` hold; a thread that panics makes none.
  unfoldable pub drop : Bool → Pool injectors → Bool
  drop panicking p = panicking || ((p.running == 0) && (Defs.size injectors p == 0))

  -- What is behind `grow`: the scheduler's own scheduling, which leaves the stack as it found it. The
  -- error of `grow` leaves the function at once.
  abbrev pub scheduled :
      (Pool injectors → Pool injectors × Schedule)
      → List ℕ
      → Pool injectors × Grown
      → Thread × Schedule
  scheduled schedule stack (p, refused) = ((record p { scheduling = false }, stack), failed)
  scheduled schedule stack (p, unneeded) =
      let (q, r) = schedule p in ((record q { scheduling = false }, clean_current stack), r)
  scheduled schedule stack (p, grown) =
      let (q, r) = schedule p in ((record q { scheduling = false }, clean_current stack), r)

  -- `me` names the pool on the stack.
  unfoldable pub try_timeout_schedule :
      (Pool injectors → Pool injectors × Schedule) → Bool → ℕ → ℕ → ℕ → Thread → Thread × Schedule
  try_timeout_schedule schedule submitted me now timeout_time (p, stack) =
      if p.scheduling
      then ((p, stack), left_time (timeout_time - now))
      else scheduled schedule (me ∷ stack) (
          Defs.grow injectors (not (is_stopping p.state)) submitted
            (record p { scheduling = true }))

  -- `timed` is `try_timed_schedule`, given the duration.
  -- The loop of stop; `none` while it runs.
  abbrev pub checked : Pool injectors → Pool injectors × Stop
  checked q =
      if is_stopping_in false q.state
      then (record q { state = PoolState.stopped }, done)
      else (record q { state = PoolState.stopped }, panics)

  abbrev pub looped :
      (ℕ → Pool injectors → Option (Pool injectors × Stop))
      → Pool injectors × Schedule
      → Option (Pool injectors × Stop)
  looped again (q, failed) = some (q, errs)
  looped again (q, left_time left) =
      if Defs.is_empty injectors q && (q.running == 0)
      then some (checked q)
      else if left == 0
      then some (q, timed_out)
      else again left q

  unfoldable pub stop_loop :
      (ℕ → Pool injectors → Pool injectors × Schedule)
      → ℕ
      → ℕ
      → Pool injectors
      → Option (Pool injectors × Stop)
  stop_loop timed zero left p = none
  stop_loop timed (suc fuel) left p = looped (λ left q. stop_loop timed fuel left q) (timed left p)

  -- In thread mode: `waited` is the pool behind the wait and whether the wait timed out.
  abbrev pub awaited : Pool injectors × Bool → Pool injectors × Stop
  awaited (q, true) = (q, timed_out)
  awaited (q, false) =
      if is_stopping_in true q.state
      then (record q { state = PoolState.stopped }, done)
      else (record q { state = PoolState.stopped }, panics)

  abbrev pub stopping_from :
      (ℕ → Pool injectors → Pool injectors × Schedule)
      → (Pool injectors → Pool injectors × Bool)
      → ℕ
      → ℕ
      → PoolState
      → Pool injectors × Schedule
      → Option (Pool injectors × Stop)
  stopping_from timed waited fuel wait_time state (p, failed) = some (p, errs)
  stopping_from timed waited fuel wait_time state (p, left_time left) =
      if is_running state
      then (if is_running p.state
          then some (awaited (waited (record p { state = PoolState.stopping true })))
          else some (record p { state = PoolState.stopping true }, panics))
      else (if is_created p.state
          then stop_loop timed fuel wait_time (record p { state = PoolState.stopping false })
          else some (record p { state = PoolState.stopping false }, panics))

  unfoldable pub stop :
      (ℕ → Pool injectors → Pool injectors × Schedule)
      → (Pool injectors → Pool injectors × Bool)
      → ℕ
      → ℕ
      → Pool injectors
      → Option (Pool injectors × Stop)
  unfolding stop_loop
  stop timed waited fuel wait_time p =
      if is_stopped p.state
      then some (p, done)
      else stopping_from timed waited fuel wait_time p.state (timed 0 p)
