-- ===== src/Pool/Defs.antt =====
-- `CoroutinePoolImpl` of open-coroutine-core/src/pool/mod.rs, seen by the thread that schedules it. The
-- task queue is an interface; the maps of results and of waiting threads are functions.
use open_coroutine.Base.{
  ℕ, zero, suc, ◌+◌, ◌-◌, ltb, leb, ◌==◌, if◌then◌else◌, Bool, true, false, ◌&&◌, ◌||◌, not, Option,
  none, some, length,
}
use open_coroutine.Queue.Deques.{Injectors, Steal, success, retry, empty}
use open_coroutine.Pool.Task.{Task, Outcome, run}

pub data PoolState : Type 0 where
  created running : PoolState
  stopping : Bool → PoolState
  stopped : PoolState

-- A map as a function, changed at one key.
abbrev pub put : {A : Type 0} → ℕ → A → (ℕ → A) → ℕ → A
put k v f i = if k == i then v else f i

-- `waits` holds the flag `pending` of a thread that waits for the result of a name.
pub record Pool (injectors : Injectors Task) : Type 0 where
  pub state : PoolState
  pub task_queue : injectors.Injector
  pub scheduling : Bool
  pub running : ℕ
  pub pop_fail_times : ℕ
  pub min_size : ℕ
  pub max_size : ℕ
  pub keep_alive_time : ℕ
  pub results : ℕ → Option Outcome
  pub waits : ℕ → Option Bool

-- What `try_run` comes to: there was no task, a task ran, or the assertion panicked.
pub data Ran : Type 0 where
  idle ran broken : Ran

-- What `grow` comes to: no worker is needed, or one is created, or the scheduler refuses it.
pub data Grown : Type 0 where
  unneeded grown refused : Grown

-- Where a worker's loop gives way.
pub data Pause : Type 0 where
  returned suspended blocked panicked exhausted : Pause

-- `Created` and `Running` go on; a pool that stops recycles its workers and grows no more.
abbrev pub is_stopping : PoolState → Bool
is_stopping PoolState.created = false
is_stopping PoolState.running = false
is_stopping (PoolState.stopping thread) = true
is_stopping PoolState.stopped = true

abbrev pub notified : Option Bool → Option Bool
notified none = none
notified (some pending) = some false

module _ (injectors : Injectors Task) where
  abbrev pub init : injectors.Injector → ℕ → ℕ → ℕ → Pool injectors
  init empty_queue min_size max_size keep_alive_time = record {
    state = PoolState.created;
    task_queue = empty_queue;
    scheduling = false;
    running = 0;
    pop_fail_times = 0;
    min_size = min_size;
    max_size = max_size;
    keep_alive_time = keep_alive_time;
    results = λ name. none;
    waits = λ name. none;
  }

  abbrev pub set_min_size : ℕ → Pool injectors → Pool injectors
  set_min_size n p = record p { min_size = n }

  abbrev pub set_max_size : ℕ → Pool injectors → Pool injectors
  set_max_size n p = record p { max_size = n }

  abbrev pub set_keep_alive_time : ℕ → Pool injectors → Pool injectors
  set_keep_alive_time n p = record p { keep_alive_time = n }

  -- `change_state` returns the old state.
  abbrev pub change_state : PoolState → Pool injectors → Pool injectors × PoolState
  change_state new p = (record p { state = new }, p.state)

  abbrev pub size : Pool injectors → ℕ
  size p = length (injectors.waiting p.task_queue)

  abbrev pub is_empty : Pool injectors → Bool
  is_empty p = size p == 0

  abbrev pub submit_raw : Task → Pool injectors → Pool injectors
  submit_raw task p = record p { task_queue = injectors.push task p.task_queue }

  abbrev pub took :
      Pool injectors
      → (Pool injectors → Pool injectors × Option Task)
      → Steal Task
      → Pool injectors × Option Task
  took p again (success task) = (p, some task)
  took p again retry = again p
  took p again empty = (p, none)

  -- `pop` behind its test for an empty queue; a steal that has to be tried again costs fuel.
  unfoldable pub pop_loop : ℕ → Pool injectors → Pool injectors × Option Task
  pop_loop zero p = (p, none)
  pop_loop (suc fuel) p =
      let stolen = injectors.steal p.task_queue in
      took (record p { task_queue = stolen.0 }) (λ q. pop_loop fuel q) stolen.1

  unfoldable pub pop : Pool injectors → Pool injectors × Option Task
  unfolding pop_loop
  pop p = if is_empty p then (p, none) else pop_loop 1 p

  unfoldable pub try_get_result : ℕ → Pool injectors → Pool injectors × Option Outcome
  try_get_result name p = (record p { results = put name none p.results }, p.results name)

  -- The insertion comes before the test that there was no result yet.
  abbrev pub inserted : ℕ → Outcome → Option Outcome → Pool injectors → Pool injectors × Ran
  inserted name result (some old) p =
      (record p { results = put name (some result) p.results }, broken)
  inserted name result none p = (
    record p {
      results = put name (some result) p.results;
      waits = put name (notified (p.waits name)) p.waits;
    },
    ran,
  )

  abbrev pub finish : Pool injectors × Option Task → Pool injectors × Ran
  finish (p, none) = (p, idle)
  finish (p, some task) = inserted ((run task).0) ((run task).1) (p.results ((run task).0)) p

  unfoldable pub try_run : Pool injectors → Pool injectors × Ran
  unfolding pop
  try_run p = finish (pop p)

  -- Whether a worker that found no task ends.
  abbrev pub retires : ℕ → ℕ → Pool injectors → Bool
  retires create_time now p =
      leb p.keep_alive_time (now - create_time) && ltb p.min_size p.running || is_stopping p.state

  -- The worker's loop where it found no task.
  unfoldable pub rest : ℕ → ℕ → Pool injectors → Pool injectors × Pause
  rest create_time now p =
      let fails = p.pop_fail_times + 1 in
      if retires create_time now p
      then (record p { running = p.running - 1 }, returned)
      else if ltb fails p.running
      then (record p { pop_fail_times = fails }, suspended)
      else (record p { pop_fail_times = fails }, blocked)

  abbrev pub unblocked : Pool injectors → Pool injectors
  unblocked p = record p { pop_fail_times = 0 }

  -- The loop behind a `try_run`: what is behind its first test, and its next turn.
  abbrev pub tried :
      (Pool injectors → Pool injectors × Pause)
      → (Pool injectors → Pool injectors × Pause)
      → Pool injectors × Ran
      → Pool injectors × Pause
  tried behind again (p, idle) = behind p
  tried behind again (p, ran) = again (unblocked p)
  tried behind again (p, broken) = (p, panicked)

  -- A worker from where it is resumed to where it gives way. Behind a block `pop_fail_times` is 0.
  unfoldable pub work : ℕ → ℕ → ℕ → Pool injectors → Pool injectors × Pause
  unfolding try_run rest
  work zero create_time now p = (p, exhausted)
  work (suc fuel) create_time now p =
      tried (rest create_time now) (λ q. work fuel create_time now q) (try_run p)

  -- `grow`. `submitted` tells whether the scheduler accepts the worker; its error leaves the pool as
  -- it was.
  unfoldable pub grow : Bool → Bool → Pool injectors → Pool injectors × Grown
  grow should_grow submitted p =
      if not should_grow || is_empty p || leb p.max_size p.running
      then (p, unneeded)
      else if submitted
      then (record p { running = p.running + 1 }, grown)
      else (p, refused)
