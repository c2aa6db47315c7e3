-- ===== src/Pool/Winding.antt =====
-- The thread of a pool winds up behind a call of `stop`, however their steps interleave.
use open_coroutine.Base.{
  ℕ, ◌≡◌, refl, ap, ◌∙◌, inl, inr, List, [], ◌∷◌, Bool, true, false, not, Bool-cases, arith,
}
use open_coroutine.Queue.Deques.{Injectors}
use open_coroutine.Pool.Task.{Task}
use open_coroutine.Pool.Defs
use open_coroutine.Pool.Defs.{Pool, PoolState, is_stopping, Grown, unneeded, grown, refused}
use open_coroutine.Pool.Lifecycle
use open_coroutine.Pool.Lifecycle.{
  Schedule, left_time, failed, Stop, done, timed_out, errs, panics, is_created, is_running,
  is_stopped, is_stopping_in,
}
use open_coroutine.Pool.Consumer
use open_coroutine.Pool.Consumer.{
  Consumer, looks, runs, drains, drain_runs, leaves, gone, broken, Stopper, outside, called,
  scheduled, waits, woken, ended, Started, spawned, System, system, Scheduling, by, Step,
  finds_running, finds_stopping, finds_other, turns, finds_work, turns_draining, finds_none, lowers,
  asks, asks_in_vain, schedules, schedule_fails, orders, orders_wrongly, not_running, wakes,
  gives_up, ends, ends_wrongly, submits, Reach, starts, later, start, MayAsk, MaySubmit,
}

running_state : (s : PoolState) → is_running s ≡ true → s ≡ PoolState.running
running_state PoolState.running e = refl
running_state PoolState.created e = cc
running_state (PoolState.stopping t) e = cc
running_state PoolState.stopped e = cc

stopping_state : (s : PoolState) → is_stopping_in true s ≡ true → s ≡ PoolState.stopping true
stopping_state (PoolState.stopping true) e = refl
stopping_state (PoolState.stopping false) e = cc
stopping_state PoolState.running e = cc
stopping_state PoolState.created e = cc
stopping_state PoolState.stopped e = cc

module _ (injectors : Injectors Task) where
  scheduled_state :
      (schedule : Pool injectors → Pool injectors × Schedule) (stack : List ℕ)
      (g : Pool injectors × Grown)
      → ((q : Pool injectors) → (schedule q).0.state ≡ q.state)
      → (Lifecycle.scheduled injectors schedule stack g).0.0.state ≡ g.0.state
  scheduled_state schedule stack (p, refused) keeps = refl
  scheduled_state schedule stack (p, unneeded) keeps = keeps p
  scheduled_state schedule stack (p, grown) keeps = keeps p

  grow_state :
      (should submitted : Bool) (p : Pool injectors)
      → (Defs.grow injectors should submitted p).0.state ≡ p.state
  unfolding Defs.grow
  grow_state should submitted p = ground arith

  try_timeout_schedule_state :
      (schedule : Pool injectors → Pool injectors × Schedule) (submitted : Bool)
      (me now timeout_time : ℕ) (p : Pool injectors) (stack : List ℕ)
      → ((q : Pool injectors) → (schedule q).0.state ≡ q.state)
      → (Lifecycle.try_timeout_schedule injectors schedule submitted me now timeout_time
          (p, stack)).0.0.state
        ≡ p.state
  unfolding Lifecycle.try_timeout_schedule
  try_timeout_schedule_state schedule submitted me now timeout_time p stack keeps =
      elim (Bool-cases p.scheduling) [
        | inl busy ↦ rw busy refl
        | inr free ↦ rw free (
            scheduled_state schedule (me ∷ stack)
              (Defs.grow injectors (not (is_stopping p.state)) submitted
                (record p { scheduling = true }))
              keeps
            ∙ grow_state (not (is_stopping p.state)) submitted (record p { scheduling = true }))
      ]

  pub Scheduling-state :
      {p q : Pool injectors} {r : Schedule} → Scheduling injectors p q r → q.state ≡ p.state
  Scheduling-state {p} (by schedule submitted me now timeout_time keeps) =
      try_timeout_schedule_state schedule submitted me now timeout_time p [] keeps

  started_state :
      (p q : Pool injectors) → start injectors false p ≡ (q, spawned) → q.state ≡ PoolState.running
  unfolding start
  started_state p q e = ground arith

  -- No task waits and no worker runs.
  abbrev pub IsIdle : Pool injectors → Type 0
  IsIdle p = Consumer.is_idle injectors p ≡ true

  -- The thread goes round while the pool is running.
  abbrev pub Rounds : Consumer → Type 0
  Rounds looks = Unit {0}
  Rounds runs = Unit {0}
  Rounds c = ⊥

  -- The thread while the pool is to stop: once it is behind its loops, nothing is left to do; only
  -- then is the flag down.
  abbrev pub Winds : Pool injectors → Bool → Consumer → Type 0
  Winds p b broken = ⊥
  Winds p b leaves = (b ≡ true) × IsIdle p
  Winds p b gone = (b ≡ false) × IsIdle p
  Winds p b c = b ≡ true

  abbrev pub Gone : Pool injectors → Consumer → Type 0
  Gone p gone = IsIdle p
  Gone p c = ⊥

  abbrev pub Before : Pool injectors → Bool → Consumer → Type 0
  Before p b c = (p.state ≡ PoolState.running) × (b ≡ true) × Rounds c

  abbrev pub Asked : Pool injectors → Bool → Consumer → Type 0
  Asked p b c = (p.state ≡ PoolState.stopping true) × Winds p b c

  -- What holds by where the call of `stop` stands.
  abbrev pub Holds : Stopper → Pool injectors → Bool → Consumer → Type 0
  Holds outside p b c = Before p b c
  Holds (called state) p b c = Before p b c × (is_running state ≡ true)
  Holds (scheduled state) p b c = Before p b c × (is_running state ≡ true)
  Holds waits p b c = Asked p b c
  Holds woken p b c = (p.state ≡ PoolState.stopping true) × Gone p c
  Holds (ended done) p b c = (p.state ≡ PoolState.stopped) × Gone p c
  Holds (ended timed_out) p b c = Asked p b c
  Holds (ended errs) p b c = Before p b c
  Holds (ended panics) p b c = ⊥

  abbrev pub Inv : System injectors → Type 0
  Inv (system p b c k) = Holds k p b c

  -- A step of the thread, or a task submitted, that leaves the pool's state alone.
  carried :
      (k : Stopper) (p q : Pool injectors) (b b' : Bool) (c c' : Consumer)
      → q.state ≡ p.state
      → ((p.state ≡ PoolState.running) → (b ≡ true) → Rounds c → (b' ≡ true) × Rounds c')
      → ((p.state ≡ PoolState.stopping true) → Winds p b c → Winds q b' c')
      → (Gone p c → Gone q c')
      → Holds k p b c
      → Holds k q b' c'
  carried outside p q b b' c c' e rounds winds goes (s, f, r) =
      (e ∙ s, (rounds s f r).0, (rounds s f r).1)
  carried (called state) p q b b' c c' e rounds winds goes ((s, f, r), h) =
      ((e ∙ s, (rounds s f r).0, (rounds s f r).1), h)
  carried (scheduled state) p q b b' c c' e rounds winds goes ((s, f, r), h) =
      ((e ∙ s, (rounds s f r).0, (rounds s f r).1), h)
  carried waits p q b b' c c' e rounds winds goes (s, w) = (e ∙ s, winds s w)
  carried woken p q b b' c c' e rounds winds goes (s, g) = (e ∙ s, goes g)
  carried (ended done) p q b b' c c' e rounds winds goes (s, g) = (e ∙ s, goes g)
  carried (ended timed_out) p q b b' c c' e rounds winds goes (s, w) = (e ∙ s, winds s w)
  carried (ended errs) p q b b' c c' e rounds winds goes (s, f, r) =
      (e ∙ s, (rounds s f r).0, (rounds s f r).1)
  carried (ended panics) p q b b' c c' e rounds winds goes h = absurd h

  Rounds-Winds : (p : Pool injectors) (b : Bool) (c : Consumer) → Rounds c → b ≡ true → Winds p b c
  Rounds-Winds p b looks r f = f
  Rounds-Winds p b runs r f = f
  Rounds-Winds p b c r f = absurd r

  down-Gone : (p : Pool injectors) (c : Consumer) → Winds p false c → Gone p c
  down-Gone p gone w = w.1
  down-Gone p leaves w = cc
  down-Gone p looks w = cc
  down-Gone p runs w = cc
  down-Gone p drains w = cc
  down-Gone p drain_runs w = cc
  down-Gone p broken w = absurd w

  stopped-Gone :
      (state : PoolState) (p : Pool injectors) (c : Consumer)
      → Gone p c
      → Gone (Consumer.in_state injectors state p) c
  stopped-Gone state p gone g = g
  stopped-Gone state p c g = absurd g

  -- Whoever asks does so from outside: `stop` is called but once.
  from_outside :
      (p : Pool injectors) (b : Bool) (c : Consumer) (k : Stopper)
      → MayAsk injectors ⊥ k
      → Holds k p b c
      → Before p b c
  from_outside p b c outside may h = h
  from_outside p b c (ended r) may h = absurd may
  from_outside p b c k may h = absurd may

  submitted :
      (task : Task) (p : Pool injectors) (b : Bool) (c : Consumer) (k : Stopper)
      → MaySubmit injectors ⊥ k
      → Holds k p b c
      → Holds k (Defs.submit_raw injectors task p) b c
  submitted task p b c outside may h = h
  submitted task p b c k may h = absurd may

  Step-Inv : {s t : System injectors} → Step injectors ⊥ ⊥ s t → Inv s → Inv t
  Step-Inv (finds_running {p} {b} {k} h) inv =
      carried k p p b b looks runs refl (λ s f r. (f, tt)) (λ s w. w) (λ g. absurd g) inv
  Step-Inv (finds_stopping {p} {b} {k} h) inv =
      carried k p p b b looks drains refl
        (λ s f r. absurd (ground (arith, ap (is_stopping_in true) s))) (λ s w. w) (λ g. absurd g)
        inv
  Step-Inv (finds_other {p} {b} {k} h h') inv =
      carried k p p b b looks broken refl (λ s f r. absurd (ground (arith, ap is_running s)))
        (λ s w. absurd (ground (arith, ap (is_stopping_in true) s))) (λ g. absurd g) inv
  Step-Inv (turns {p} {q} {r} {b} {k} t) inv =
      carried k p q b b runs looks (Scheduling-state t) (λ s f r. (f, tt)) (λ s w. w)
        (λ g. absurd g) inv
  Step-Inv (finds_work {p} {b} {k} h) inv =
      carried k p p b b drains drain_runs refl (λ s f r. absurd r) (λ s w. w) (λ g. absurd g) inv
  Step-Inv (turns_draining {p} {q} {r} {b} {k} t) inv =
      carried k p q b b drain_runs drains (Scheduling-state t) (λ s f r. absurd r) (λ s w. w)
        (λ g. absurd g) inv
  Step-Inv (finds_none {p} {b} {k} h) inv =
      carried k p p b b drains leaves refl (λ s f r. absurd r) (λ s w. (w, h)) (λ g. absurd g) inv
  Step-Inv (lowers {p} {b} {k}) inv =
      carried k p p b false leaves gone refl (λ s f r. absurd r) (λ s w. (refl, w.1))
        (λ g. absurd g) inv
  Step-Inv (asks {p} {b} {c} {k} may h) inv =
      let before = from_outside p b c k may inv in (before, ap is_running before.0)
  Step-Inv (asks_in_vain {p} {b} {c} {k} may h) inv =
      let before = from_outside p b c k may inv in absurd (ground (arith, ap is_stopped before.0))
  Step-Inv (schedules {p} {q} t) inv = ((Scheduling-state t ∙ inv.0.0, inv.0.1, inv.0.2), inv.1)
  Step-Inv (schedule_fails {p} {q} t) inv = (Scheduling-state t ∙ inv.0.0, inv.0.1, inv.0.2)
  Step-Inv (orders {p} {b} {c} h h') inv = (
    refl,
    Rounds-Winds (Consumer.in_state injectors (PoolState.stopping true) p) b c inv.0.2 inv.0.1,
  )
  Step-Inv (orders_wrongly h h') inv = absurd (ground (arith, ap is_running inv.0.0))
  Step-Inv (not_running h h') inv = absurd (ground (arith, inv.1))
  Step-Inv (wakes {p} {c}) inv = (inv.0, down-Gone p c inv.1)
  Step-Inv gives_up inv = inv
  Step-Inv (ends {p} {b} {c} h) inv = (refl, stopped-Gone PoolState.stopped p c inv.1)
  Step-Inv (ends_wrongly h) inv = absurd (ground (arith, ap (is_stopping_in true) inv.0))
  Step-Inv (submits {p} {b} {c} {k} task may) inv = submitted task p b c k may inv

  pub Reach-Inv : {p : Pool injectors} {s : System injectors} → Reach injectors ⊥ ⊥ p s → Inv s
  Reach-Inv {p} (starts {q} e) = (started_state p q e, refl, tt)
  Reach-Inv (later r st) = Step-Inv st (Reach-Inv r)
