-- ===== src/Pool/Stopping.antt =====
-- How scheduling and stopping end in open-coroutine-core/src/pool/mod.rs.
use open_coroutine.Base.{
  ℕ, zero, suc, ◌-◌, ◌≤◌, ◌<◌, ◌≡◌, ◌⊎◌, inl, inr, refl, ap, ◌∙◌, ◌==◌, if◌then◌else◌, List, ◌∷◌,
  Bool, true, false, ◌&&◌, Option, none, some, Bool-cases, arith, ==→eq,
}
use open_coroutine.Queue.Deques.{Injectors}
use open_coroutine.Pool.Task.{Task}
use open_coroutine.Pool.Defs
use open_coroutine.Pool.Defs.{Pool, PoolState, is_stopping, Grown, unneeded, grown, refused}
use open_coroutine.Pool.Lifecycle
use open_coroutine.Pool.Lifecycle.{
  Schedule, left_time, failed, Stop, done, timed_out, errs, panics, is_created, is_running,
  is_stopped, is_stopping_in,
}

module _ (injectors : Injectors Task) where
  -- The thread's stack is as before, or an error left the pool on it; the flag is down.
  abbrev pub Unscheduled : ℕ → List ℕ → Lifecycle.Thread injectors × Schedule → Type 0
  Unscheduled me stack ((q, stack'), r) =
      (q.scheduling ≡ false) × ((stack' ≡ stack) ⊎ ((stack' ≡ me ∷ stack) × (r ≡ failed)))

  scheduled-Unscheduled :
      (schedule : Pool injectors → Pool injectors × Schedule) (me : ℕ) (stack : List ℕ)
      (g : Pool injectors × Grown)
      → Unscheduled me stack (Lifecycle.scheduled injectors schedule (me ∷ stack) g)
  scheduled-Unscheduled schedule me stack (p, refused) = (refl, inr (refl, refl))
  scheduled-Unscheduled schedule me stack (p, unneeded) = (refl, inl refl)
  scheduled-Unscheduled schedule me stack (p, grown) = (refl, inl refl)

  -- A scheduling that begins while no other is going on ends with the flag `scheduling` down again,
  -- and with the thread's stack of pools as before, or with an error that has left the pool on it.
  pub try_timeout_schedule-Unscheduled :
      (schedule : Pool injectors → Pool injectors × Schedule) (submitted : Bool)
      (me now timeout_time : ℕ) (p : Pool injectors) (stack : List ℕ)
      → p.scheduling ≡ false
      → Unscheduled me stack (
          Lifecycle.try_timeout_schedule injectors schedule submitted me now timeout_time
            (p, stack))
  unfolding Lifecycle.try_timeout_schedule
  try_timeout_schedule-Unscheduled schedule submitted me now timeout_time p stack free =
      rw (free) (scheduled-Unscheduled schedule me stack _)

  -- How the stop of a pool without a thread of its own may end: with nothing left and the state
  -- `Stopped`, with a timeout, or with an error.
  abbrev pub EndsWell : Option (Pool injectors × Stop) → Type 0
  EndsWell none = ⊥
  EndsWell (some (q, done)) =
      (q.state ≡ PoolState.stopped) × (Defs.is_empty injectors q ≡ true) × (q.running ≡ 0)
  EndsWell (some (q, timed_out)) = Unit
  EndsWell (some (q, errs)) = Unit
  EndsWell (some (q, panics)) = ⊥

  both : (a b : Bool) → (a && b) ≡ true → (a ≡ true) × (b ≡ true)
  both a b e = ground arith

  checked-EndsWell :
      (q : Pool injectors)
      → q.state ≡ PoolState.stopping false
      → (Defs.is_empty injectors q && (q.running == 0)) ≡ true
      → EndsWell (some (Lifecycle.checked injectors q))
  checked-EndsWell q e over =
      let (empty, gone) = both (Defs.is_empty injectors q) (q.running == 0) over in
      rw (ap (is_stopping_in false) e) (refl, empty, ==→eq q.running 0 gone)

  looped-EndsWell :
      (again : ℕ → Pool injectors → Option (Pool injectors × Stop)) (q : Pool injectors)
      (s : Schedule)
      → q.state ≡ PoolState.stopping false
      → ((l : ℕ) → s ≡ left_time l → 0 < l → EndsWell (again l q))
      → EndsWell (Lifecycle.looped injectors again (q, s))
  looped-EndsWell again q failed e goes_on = tt
  looped-EndsWell again q (left_time l) e goes_on =
      elim (Bool-cases (Defs.is_empty injectors q && (q.running == 0))) [
        | inl over ↦ rw (over) (checked-EndsWell q e over)
        | inr more ↦ elim (Bool-cases (l == 0)) [
          | inl late ↦ rw (more) (rw (late) tt)
          | inr early ↦ rw (more) (rw (early) (goes_on l refl (ground arith)))
        ]
      ]

  -- Scheduling leaves the pool's state alone, and reports less time left than it was given.
  unfoldable pub Keeps : (ℕ → Pool injectors → Pool injectors × Schedule) → Type 0
  Keeps timed =
      ((d : ℕ) (p : Pool injectors) → (timed d p).0.state ≡ p.state)
      × ((d l : ℕ) (p : Pool injectors) → (timed d p).1 ≡ left_time l → l ≤ d - 1)

  stop_loop-EndsWell :
      (timed : ℕ → Pool injectors → Pool injectors × Schedule) (fuel left : ℕ) (p : Pool injectors)
      → Keeps timed
      → left < fuel
      → p.state ≡ PoolState.stopping false
      → EndsWell (Lifecycle.stop_loop injectors timed fuel left p)
  unfolding Lifecycle.stop_loop Keeps
  stop_loop-EndsWell timed zero left p keeps h e = absurd (omega arith)
  stop_loop-EndsWell timed (suc fuel) left p (same, shrinks) h e =
      looped-EndsWell (λ l q. Lifecycle.stop_loop injectors timed fuel l q) ((timed left p).0)
        ((timed left p).1) (same left p ∙ e)
        (λ l r some_left.
          stop_loop-EndsWell timed fuel l ((timed left p).0) (same, shrinks)
            (omega (arith, shrinks left l p r)) (same left p ∙ e))

  created_stop :
      (timed : ℕ → Pool injectors → Pool injectors × Schedule)
      (waited : Pool injectors → Pool injectors × Bool) (fuel wait_time : ℕ) (q : Pool injectors)
      (s : Schedule)
      → Keeps timed
      → wait_time < fuel
      → q.state ≡ PoolState.created
      → EndsWell
          (Lifecycle.stopping_from injectors timed waited fuel wait_time PoolState.created (q, s))
  created_stop timed waited fuel wait_time q failed keeps h e = tt
  created_stop timed waited fuel wait_time q (left_time l) keeps h e = rw (ap is_created e) (
      stop_loop-EndsWell timed fuel wait_time (record q { state = PoolState.stopping false }) keeps
        h refl)

  from_created :
      (timed : ℕ → Pool injectors → Pool injectors × Schedule)
      (waited : Pool injectors → Pool injectors × Bool) (fuel wait_time : ℕ) (p : Pool injectors)
      (state : PoolState) (q : Pool injectors) (s : Schedule)
      → Keeps timed
      → wait_time < fuel
      → state ≡ PoolState.created
      → q.state ≡ PoolState.created
      → EndsWell (
          if is_stopped state
          then some (p, done)
          else Lifecycle.stopping_from injectors timed waited fuel wait_time state (q, s))
  from_created timed waited fuel wait_time p PoolState.created q s keeps h e f =
      created_stop timed waited fuel wait_time q s keeps h f
  from_created timed waited fuel wait_time p PoolState.running q s keeps h e f =
      absurd (ground arith)
  from_created timed waited fuel wait_time p (PoolState.stopping b) q s keeps h e f =
      absurd (ground arith)
  from_created timed waited fuel wait_time p PoolState.stopped q s keeps h e f =
      absurd (ground arith)

  -- stop of a pool that was created and not started ends without a panic, within one round more than
  -- the time it may wait, in a timeout, in an error of scheduling, or with success; with success the
  -- pool is stopped, no task waits and no worker runs. Scheduling is taken to leave the state alone
  -- and to report less time left than it was given.
  pub stop-EndsWell :
      (timed : ℕ → Pool injectors → Pool injectors × Schedule)
      (waited : Pool injectors → Pool injectors × Bool) (fuel wait_time : ℕ) (p : Pool injectors)
      → Keeps timed
      → wait_time < fuel
      → p.state ≡ PoolState.created
      → EndsWell (Lifecycle.stop injectors timed waited fuel wait_time p)
  unfolding Lifecycle.stop Keeps
  stop-EndsWell timed waited fuel wait_time p (same, shrinks) h e =
      from_created timed waited fuel wait_time p p.state ((timed 0 p).0) ((timed 0 p).1)
        (same, shrinks) h e (same 0 p ∙ e)

  abbrev pub Panics : Option (Pool injectors × Stop) → Type 0
  Panics none = ⊥
  Panics (some (q, s)) = s ≡ panics

  second_stop :
      (timed : ℕ → Pool injectors → Pool injectors × Schedule)
      (waited : Pool injectors → Pool injectors × Bool) (fuel wait_time : ℕ) (b thread : Bool)
      (q : Pool injectors) (l : ℕ) (s : Schedule)
      → s ≡ left_time l
      → q.state ≡ PoolState.stopping thread
      → Panics (
          Lifecycle.stopping_from injectors timed waited fuel wait_time
            (PoolState.stopping b)
            (q, s))
  second_stop timed waited fuel wait_time b thread q l failed r e = absurd (ground arith)
  second_stop timed waited fuel wait_time b thread q l (left_time k) r e = rw (ap is_created e) refl

  from_stopping :
      (timed : ℕ → Pool injectors → Pool injectors × Schedule)
      (waited : Pool injectors → Pool injectors × Bool) (fuel wait_time : ℕ) (thread : Bool)
      (p : Pool injectors) (state : PoolState) (q : Pool injectors) (l : ℕ) (s : Schedule)
      → s ≡ left_time l
      → state ≡ PoolState.stopping thread
      → q.state ≡ PoolState.stopping thread
      → Panics (
          if is_stopped state
          then some (p, done)
          else Lifecycle.stopping_from injectors timed waited fuel wait_time state (q, s))
  from_stopping timed waited fuel wait_time thread p PoolState.created q l s r e f =
      absurd (ground arith)
  from_stopping timed waited fuel wait_time thread p PoolState.running q l s r e f =
      absurd (ground arith)
  from_stopping timed waited fuel wait_time thread p (PoolState.stopping b) q l s r e f =
      second_stop timed waited fuel wait_time b thread q l s r f
  from_stopping timed waited fuel wait_time thread p PoolState.stopped q l s r e f =
      absurd (ground arith)

  -- A second stop, made while the pool is stopping, as it is when the first one timed out, fails an
  -- assertion, if scheduling at that moment succeeds and leaves the state alone.
  pub stop_again :
      (timed : ℕ → Pool injectors → Pool injectors × Schedule)
      (waited : Pool injectors → Pool injectors × Bool) (fuel wait_time : ℕ) (thread : Bool)
      (p : Pool injectors) (l : ℕ)
      → Keeps timed
      → (timed 0 p).1 ≡ left_time l
      → p.state ≡ PoolState.stopping thread
      → Panics (Lifecycle.stop injectors timed waited fuel wait_time p)
  unfolding Lifecycle.stop Keeps
  stop_again timed waited fuel wait_time thread p l (same, shrinks) r e =
      from_stopping timed waited fuel wait_time thread p p.state ((timed 0 p).0) l ((timed 0 p).1) r
        e (same 0 p ∙ e)
