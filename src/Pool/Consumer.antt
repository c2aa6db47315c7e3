-- ===== src/Pool/Consumer.antt =====
-- `start` of open-coroutine-core/src/pool/mod.rs, the thread that it spawns, and a thread that calls
-- `stop` beside it. A scheduling is one step; the two threads' steps may follow one another in any
-- order.
use open_coroutine.Base.{ℕ, ◌≡◌, ◌==◌, if◌then◌else◌, [], Bool, true, false, ◌&&◌}
use open_coroutine.Queue.Deques.{Injectors}
use open_coroutine.Pool.Task.{Task}
use open_coroutine.Pool.Defs
use open_coroutine.Pool.Defs.{Pool, PoolState}
use open_coroutine.Pool.Lifecycle
use open_coroutine.Pool.Lifecycle.{
  Schedule, left_time, failed, Stop, done, timed_out, errs, panics, is_created, is_running,
  is_stopped, is_stopping_in,
}

-- Where the spawned thread stands: at the match on the state, before the scheduling of a running
-- pool, at the test of the inner loop, in that loop, behind it, at its end, or in the `unreachable!`.
pub data Consumer : Type 0 where
  looks runs drains drain_runs leaves gone broken : Consumer

-- Where a call of `stop` stands: not made, with the state that it read, behind its scheduling, waiting
-- for the thread, behind the wait, or ended.
pub data Stopper : Type 0 where
  outside : Stopper
  called scheduled : PoolState → Stopper
  waits woken : Stopper
  ended : Stop → Stopper

-- How `start` ends: with the thread, with the error for a blocker that sleeps, or in its assertion.
pub data Started : Type 0 where
  spawned invalid_input assertion : Started

module _ (injectors : Injectors Task) where
  unfoldable pub start : Bool → Pool injectors → Pool injectors × Started
  start sleep_blocker p =
      if sleep_blocker
      then (p, invalid_input)
      else if is_created p.state
      then (record p { state = PoolState.running }, spawned)
      else (record p { state = PoolState.running }, assertion)

  -- A scheduling by `try_timeout_schedule`, whatever the scheduler does meanwhile, as long as that does
  -- not set the pool's state.
  pub data Scheduling (p : Pool injectors) : Pool injectors → Schedule → Type 0 where
    by :
        (schedule : Pool injectors → Pool injectors × Schedule) (submitted : Bool)
        (me now timeout_time : ℕ)
        → ((q : Pool injectors) → (schedule q).0.state ≡ q.state)
        → Scheduling p
            (Lifecycle.try_timeout_schedule injectors schedule submitted me now timeout_time
              (p, [])).0.0
            (Lifecycle.try_timeout_schedule injectors schedule submitted me now timeout_time
              (p, [])).1

  -- The pool with the flag `pending`, the thread, and the call of `stop`.
  pub data System : Type 0 where
    system : Pool injectors → Bool → Consumer → Stopper → System

  -- Whether `stop` may be called: once, and then again if that is allowed.
  abbrev pub MayAsk : Type 0 → Stopper → Type 0
  MayAsk again outside = Unit {0}
  MayAsk again (ended r) = again
  MayAsk again k = ⊥

  -- Whether a task may be submitted: before `stop` is called, and then if that is allowed.
  abbrev pub MaySubmit : Type 0 → Stopper → Type 0
  MaySubmit late outside = Unit {0}
  MaySubmit late k = late

  abbrev pub is_idle : Pool injectors → Bool
  is_idle p = Defs.is_empty injectors p && (p.running == 0)

  abbrev pub in_state : PoolState → Pool injectors → Pool injectors
  in_state state p = record p { state = state }

  pub data Step (again late : Type 0) : System → System → Type 0 where
    -- The spawned thread.
    finds_running :
        {p : Pool injectors} {b : Bool} {k : Stopper}
        → is_running p.state ≡ true
        → Step again late (system p b looks k) (system p b runs k)
    finds_stopping :
        {p : Pool injectors} {b : Bool} {k : Stopper}
        → is_stopping_in true p.state ≡ true
        → Step again late (system p b looks k) (system p b drains k)
    finds_other :
        {p : Pool injectors} {b : Bool} {k : Stopper}
        → is_running p.state ≡ false
        → is_stopping_in true p.state ≡ false
        → Step again late (system p b looks k) (system p b broken k)
    turns :
        {p q : Pool injectors} {r : Schedule} {b : Bool} {k : Stopper}
        → Scheduling p q r
        → Step again late (system p b runs k) (system q b looks k)
    finds_work :
        {p : Pool injectors} {b : Bool} {k : Stopper}
        → is_idle p ≡ false
        → Step again late (system p b drains k) (system p b drain_runs k)
    turns_draining :
        {p q : Pool injectors} {r : Schedule} {b : Bool} {k : Stopper}
        → Scheduling p q r
        → Step again late (system p b drain_runs k) (system q b drains k)
    finds_none :
        {p : Pool injectors} {b : Bool} {k : Stopper}
        → is_idle p ≡ true
        → Step again late (system p b drains k) (system p b leaves k)
    lowers :
        {p : Pool injectors} {b : Bool} {k : Stopper}
        → Step again late (system p b leaves k) (system p false gone k)
    -- The call of `stop`.
    asks :
        {p : Pool injectors} {b : Bool} {c : Consumer} {k : Stopper}
        → MayAsk again k
        → is_stopped p.state ≡ false
        → Step again late (system p b c k) (system p b c (called p.state))
    asks_in_vain :
        {p : Pool injectors} {b : Bool} {c : Consumer} {k : Stopper}
        → MayAsk again k
        → is_stopped p.state ≡ true
        → Step again late (system p b c k) (system p b c (ended done))
    schedules :
        {p q : Pool injectors} {left : ℕ} {b : Bool} {c : Consumer} {state : PoolState}
        → Scheduling p q (left_time left)
        → Step again late (system p b c (called state)) (system q b c (scheduled state))
    schedule_fails :
        {p q : Pool injectors} {b : Bool} {c : Consumer} {state : PoolState}
        → Scheduling p q failed
        → Step again late (system p b c (called state)) (system q b c (ended errs))
    orders :
        {p : Pool injectors} {b : Bool} {c : Consumer} {state : PoolState}
        → is_running state ≡ true
        → is_running p.state ≡ true
        → Step again late
            (system p b c (scheduled state))
            (system (in_state (PoolState.stopping true) p) b c waits)
    orders_wrongly :
        {p : Pool injectors} {b : Bool} {c : Consumer} {state : PoolState}
        → is_running state ≡ true
        → is_running p.state ≡ false
        → Step again late
            (system p b c (scheduled state))
            (system (in_state (PoolState.stopping true) p) b c (ended panics))
    not_running :
        {p : Pool injectors} {b : Bool} {c : Consumer} {state : PoolState}
        → is_running state ≡ false
        → is_created p.state ≡ false
        → Step again late
            (system p b c (scheduled state))
            (system (in_state (PoolState.stopping false) p) b c (ended panics))
    wakes :
        {p : Pool injectors} {c : Consumer}
        → Step again late (system p false c waits) (system p false c woken)
    gives_up :
        {p : Pool injectors} {c : Consumer}
        → Step again late (system p true c waits) (system p true c (ended timed_out))
    ends :
        {p : Pool injectors} {b : Bool} {c : Consumer}
        → is_stopping_in true p.state ≡ true
        → Step again late
            (system p b c woken)
            (system (in_state PoolState.stopped p) b c (ended done))
    ends_wrongly :
        {p : Pool injectors} {b : Bool} {c : Consumer}
        → is_stopping_in true p.state ≡ false
        → Step again late
            (system p b c woken)
            (system (in_state PoolState.stopped p) b c (ended panics))
    -- Another thread.
    submits :
        {p : Pool injectors} {b : Bool} {c : Consumer} {k : Stopper} (task : Task)
        → MaySubmit late k
        → Step again late (system p b c k) (system (Defs.submit_raw injectors task p) b c k)

  -- From a pool that `start` has started: `new` puts the flag up.
  pub data Reach (again late : Type 0) (p : Pool injectors) : System → Type 0 where
    starts :
        {q : Pool injectors}
        → start false p ≡ (q, spawned)
        → Reach again late p (system q true looks outside)
    later : {s t : System} → Reach again late p s → Step again late s t → Reach again late p t
