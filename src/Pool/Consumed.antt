-- ===== src/Pool/Consumed.antt =====
-- What a call of `stop` owes where the pool runs on a thread of its own.
use open_coroutine.Base.{ℕ, ◌≡◌, refl, ap, ◌∙◌, ◌==◌, Bool, true, false, ◌&&◌, ==→eq, arith}
use open_coroutine.Queue.Deques.{Injectors}
use open_coroutine.Pool.Task.{Task}
use open_coroutine.Pool.Defs
use open_coroutine.Pool.Defs.{Pool, PoolState, is_stopping, Grown, unneeded, grown, refused}
use open_coroutine.Pool.Lifecycle
use open_coroutine.Pool.Lifecycle.{
  left_time, done, timed_out, errs, panics, is_created, is_running, is_stopped,
}
use open_coroutine.Pool.Consumer
use open_coroutine.Pool.Consumer.{
  Consumer, looks, runs, drains, drain_runs, leaves, gone, broken, Stopper, outside, called,
  scheduled, waits, woken, ended, Started, spawned, System, system, Scheduling, by, Step,
  finds_running, finds_stopping, finds_other, turns, finds_work, turns_draining, finds_none, lowers,
  asks, asks_in_vain, schedules, schedule_fails, orders, orders_wrongly, not_running, wakes,
  gives_up, ends, ends_wrongly, submits, Reach, starts, later, start, MayAsk, MaySubmit,
}
use open_coroutine.Pool.Winding.{Scheduling-state, Holds, Inv, Reach-Inv, Gone}

module _ (injectors : Injectors Task) where
  abbrev pub Unbroken : Consumer → Type 0
  Unbroken broken = ⊥
  Unbroken c = Unit {0}

  -- What a call of `stop` leaves by how it ended.
  abbrev pub Leaves : Stopper → Pool injectors → Consumer → Type 0
  Leaves (ended panics) p c = ⊥
  Leaves (ended done) p c =
      (p.state ≡ PoolState.stopped)
      × (c ≡ gone)
      × (Defs.is_empty injectors p ≡ true)
      × (p.running ≡ 0)
      × (Lifecycle.drop injectors false p ≡ true)
  Leaves (ended timed_out) p c = p.state ≡ PoolState.stopping true
  Leaves (ended errs) p c = p.state ≡ PoolState.running
  Leaves k p c = Unit {0}

  abbrev pub Orderly : System injectors → Type 0
  Orderly (system p b c k) = Unbroken c × Leaves k p c

  both : (a b : Bool) → (a && b) ≡ true → (a ≡ true) × (b ≡ true)
  both a b e = ground arith

  Gone-Leaves :
      (p : Pool injectors) (c : Consumer)
      → p.state ≡ PoolState.stopped
      → Gone injectors p c
      → Leaves (ended done) p c
  unfolding Lifecycle.drop
  Gone-Leaves p gone s g =
      let (empty, none_runs) = both (Defs.is_empty injectors p) (p.running == 0) g in
      (s, refl, empty, ==→eq p.running 0 none_runs, rw (none_runs, Lifecycle.drop) empty)
  Gone-Leaves p c s g = absurd g

  Holds-Leaves :
      (k : Stopper) (p : Pool injectors) (b : Bool) (c : Consumer)
      → Holds injectors k p b c
      → Leaves k p c
  Holds-Leaves (ended panics) p b c h = absurd h
  Holds-Leaves (ended done) p b c h = Gone-Leaves p c h.0 h.1
  Holds-Leaves (ended timed_out) p b c h = h.0
  Holds-Leaves (ended errs) p b c h = h.0
  Holds-Leaves k p b c h = tt

  Holds-broken : (k : Stopper) (p : Pool injectors) (b : Bool) → Holds injectors k p b broken → ⊥
  Holds-broken outside p b h = h.2
  Holds-broken (called state) p b h = h.0.2
  Holds-broken (scheduled state) p b h = h.0.2
  Holds-broken waits p b h = h.1
  Holds-broken woken p b h = h.1
  Holds-broken (ended done) p b h = h.1
  Holds-broken (ended timed_out) p b h = h.1
  Holds-broken (ended errs) p b h = h.2
  Holds-broken (ended panics) p b h = h

  Holds-Unbroken :
      (k : Stopper) (p : Pool injectors) (b : Bool) (c : Consumer)
      → Holds injectors k p b c
      → Unbroken c
  Holds-Unbroken k p b broken h = absurd (Holds-broken k p b h)
  Holds-Unbroken k p b c h = tt

  Inv-Orderly : (s : System injectors) → Inv injectors s → Orderly s
  Inv-Orderly (system p b c k) h = (Holds-Unbroken k p b c h, Holds-Leaves k p b c h)

  -- On a pool that was started, where `stop` is called once and no task is submitted from outside
  -- from then on, neither its thread nor `stop` panics, however their steps and those of the
  -- schedulings interleave; where `stop` succeeds the pool is stopped, its thread has come to its end,
  -- no task waits and no worker runs, so that the assertions of `Drop` hold; where it times out the pool is still stopping, and where it
  -- fails the pool is still running.
  pub Reach-Orderly :
      {p : Pool injectors} (s : System injectors) → Reach injectors ⊥ ⊥ p s → Orderly s
  Reach-Orderly s r = Inv-Orderly s (Reach-Inv injectors r)

  -- Behind a call of `stop` that timed out while the thread was scheduling a running pool, a second
  -- call may set a state at which the thread panics.
  pub second_stop-breaks :
      {again late : Type 0} (p q q' : Pool injectors) (left left' : ℕ)
      → again
      → q.state ≡ PoolState.stopping true
      → Scheduling injectors q q' (left_time left)
      → Scheduling injectors
          (Consumer.in_state injectors (PoolState.stopping false) q')
          (Consumer.in_state injectors (PoolState.stopping false) q')
          (left_time left')
      → Reach injectors again late p (system q true runs (ended timed_out))
      → Reach injectors again late p (
          system
            (Consumer.in_state injectors (PoolState.stopping false) q')
            true
            broken
            (ended panics))
  second_stop-breaks p q q' left left' may s first second r =
      let kept : q'.state ≡ PoolState.stopping true = Scheduling-state injectors first ∙ s in
      later
        (later
          (later (later (later r (asks may (ap is_stopped s))) (schedules first))
            (not_running (ap is_running s) (ap is_created kept)))
          (turns second))
        (finds_other refl refl)
