-- ===== src/Pool/Bounds.antt =====
-- Bounds on the workers of the pool of open-coroutine-core/src/pool.
use open_coroutine.Base.{
  ℕ, zero, suc, ◌+◌, ◌-◌, ◌≤◌, ◌<◌, ◌≡◌, ◌⊎◌, inl, inr, refl, sym, ap, ◌∙◌, ltb, true, Option, none,
  some, Bool-cases, arith,
}
use open_coroutine.Queue.Deques.{Injectors, Steal, success, retry, empty}
use open_coroutine.Pool.Task.{Task, Outcome, run}
use open_coroutine.Pool.Defs
use open_coroutine.Pool.Defs.{
  Pool, PoolState, Ran, idle, ran, broken, Pause, returned, suspended, blocked, panicked, exhausted,
  is_stopping, Grown, unneeded, grown, refused,
}

module _ (injectors : Injectors Task) where
  -- What running tasks leaves alone.
  abbrev Kept : Pool injectors → Pool injectors → Type 0
  Kept p q =
      (q.running ≡ p.running)
      × (q.min_size ≡ p.min_size)
      × (q.max_size ≡ p.max_size)
      × (q.keep_alive_time ≡ p.keep_alive_time)
      × (q.state ≡ p.state)

  Kept-trans : (p q r : Pool injectors) → Kept p q → Kept q r → Kept p r
  Kept-trans p q r (a, b, c, d, e) (a', b', c', d', e') = (a' ∙ a, b' ∙ b, c' ∙ c, d' ∙ d, e' ∙ e)

  took-Kept :
      (p q : Pool injectors) (again : Pool injectors → Pool injectors × Option Task)
      (s : Steal Task)
      → Kept p q
      → ((r : Pool injectors) → Kept r ((again r).0))
      → Kept p ((Defs.took injectors q again s).0)
  took-Kept p q again (success task) h later = h
  took-Kept p q again retry h later = Kept-trans p q ((again q).0) h (later q)
  took-Kept p q again empty h later = h

  pop_loop-Kept : (fuel : ℕ) (p : Pool injectors) → Kept p ((Defs.pop_loop injectors fuel p).0)
  unfolding Defs.pop_loop
  pop_loop-Kept zero p = (refl, refl, refl, refl, refl)
  pop_loop-Kept (suc fuel) p =
      took-Kept p _ (λ q. Defs.pop_loop injectors fuel q) _ (refl, refl, refl, refl, refl)
        (λ r. pop_loop-Kept fuel r)

  pop-Kept : (p : Pool injectors) → Kept p ((Defs.pop injectors p).0)
  unfolding Defs.pop
  pop-Kept p = elim (Bool-cases (Defs.is_empty injectors p)) [
    | inl e ↦ rw (e) (refl, refl, refl, refl, refl)
    | inr e ↦ rw (e) (pop_loop-Kept 1 p)
  ]

  inserted-Kept :
      (name : ℕ) (result : Outcome) (old : Option Outcome) (p : Pool injectors)
      → Kept p ((Defs.inserted injectors name result old p).0)
  inserted-Kept name result none p = (refl, refl, refl, refl, refl)
  inserted-Kept name result (some old) p = (refl, refl, refl, refl, refl)

  finish-Kept :
      (p : Pool injectors) (popped : Pool injectors × Option Task)
      → Kept p (popped.0)
      → Kept p ((Defs.finish injectors popped).0)
  finish-Kept p (q, none) h = h
  finish-Kept p (q, some task) h =
      Kept-trans p q ((Defs.finish injectors (q, some task)).0) h
        (inserted-Kept ((run task).0) ((run task).1) (q.results ((run task).0)) q)

  try_run-Kept : (p : Pool injectors) → Kept p ((Defs.try_run injectors p).0)
  unfolding Defs.try_run
  try_run-Kept p = finish-Kept p (Defs.pop injectors p) (pop-Kept p)

  -- How a worker gives way, from the pool as its turn found it: it ends only where the pool stops, or
  -- where its time is over and there are more workers than the least number.
  unfoldable pub Paused : ℕ → ℕ → Pool injectors → Pool injectors × Pause → Type 0
  Paused create_time now p (q, returned) =
      (q.running ≡ p.running - 1)
      × (q.max_size ≡ p.max_size)
      × ((is_stopping p.state ≡ true)
          ⊎ ((p.keep_alive_time ≤ now - create_time) × (p.min_size < p.running)))
  Paused create_time now p (q, suspended) = (q.running ≡ p.running) × (q.max_size ≡ p.max_size)
  Paused create_time now p (q, blocked) = (q.running ≡ p.running) × (q.max_size ≡ p.max_size)
  Paused create_time now p (q, panicked) = (q.running ≡ p.running) × (q.max_size ≡ p.max_size)
  Paused create_time now p (q, exhausted) = (q.running ≡ p.running) × (q.max_size ≡ p.max_size)

  why :
      (create_time now : ℕ) (p : Pool injectors)
      → Defs.retires injectors create_time now p ≡ true
      → (is_stopping p.state ≡ true)
        ⊎ ((p.keep_alive_time ≤ now - create_time) × (p.min_size < p.running))
  why create_time now p e = ground arith

  Paused-Kept :
      (create_time now : ℕ) (p q : Pool injectors) (r : Pool injectors × Pause)
      → Kept p q
      → Paused create_time now q r
      → Paused create_time now p r
  unfolding Paused
  Paused-Kept create_time now p q (r, returned) (a, b, c, d, e) (x, y, z) = (
    omega arith,
    y ∙ c,
    elim z [
      | inl s ↦ inl (ap is_stopping (sym e) ∙ s)
      | inr (late, more) ↦ inr (omega arith, omega arith)
    ],
  )
  Paused-Kept create_time now p q (r, suspended) h (x, y) = (x ∙ h.0, y ∙ h.2)
  Paused-Kept create_time now p q (r, blocked) h (x, y) = (x ∙ h.0, y ∙ h.2)
  Paused-Kept create_time now p q (r, panicked) h (x, y) = (x ∙ h.0, y ∙ h.2)
  Paused-Kept create_time now p q (r, exhausted) h (x, y) = (x ∙ h.0, y ∙ h.2)

  rest-Paused :
      (create_time now : ℕ) (p : Pool injectors)
      → Paused create_time now p (Defs.rest injectors create_time now p)
  unfolding Defs.rest Paused
  rest-Paused create_time now p = elim (Bool-cases (Defs.retires injectors create_time now p)) [
    | inl retired ↦ rw (retired) (refl, refl, why create_time now p retired)
    | inr stays ↦ elim (Bool-cases (ltb (p.pop_fail_times + 1) p.running)) [
      | inl few ↦ rw (stays) (rw (few) (refl, refl))
      | inr many ↦ rw (stays) (rw (many) (refl, refl))
    ]
  ]

  tried-Paused :
      (create_time now : ℕ) (p : Pool injectors) (again : Pool injectors → Pool injectors × Pause)
      (tried : Pool injectors × Ran)
      → Kept p (tried.0)
      → ((q : Pool injectors) → Paused create_time now q (again q))
      → Paused create_time now p
          (Defs.tried injectors (Defs.rest injectors create_time now) again tried)
  unfolding Paused
  tried-Paused create_time now p again (q, idle) h goes_on =
      Paused-Kept create_time now p q (Defs.rest injectors create_time now q) h
        (rest-Paused create_time now q)
  tried-Paused create_time now p again (q, ran) h goes_on =
      Paused-Kept create_time now p q (again (Defs.unblocked injectors q)) h
        (goes_on (Defs.unblocked injectors q))
  tried-Paused create_time now p again (q, broken) h goes_on = (h.0, h.2)

  -- However many tasks it ran in its turn, a worker that ends has taken itself off the counter, and
  -- either the pool stops, or the worker's time is over and the counter was above the least number;
  -- a worker that gives way in any other way leaves the counter as it was. The greatest number is
  -- never touched.
  pub work-Paused :
      (fuel create_time now : ℕ) (p : Pool injectors)
      → Paused create_time now p (Defs.work injectors fuel create_time now p)
  unfolding Defs.work Paused
  work-Paused zero create_time now p = (refl, refl)
  work-Paused (suc fuel) create_time now p =
      tried-Paused create_time now p (λ q. Defs.work injectors fuel create_time now q)
        (Defs.try_run injectors p) (try_run-Kept p) (λ q. work-Paused fuel create_time now q)
