-- ===== src/Pool/Crew.antt =====
-- The counter of the workers of open-coroutine-core/src/pool against those that are alive.
use open_coroutine.Base.{
  ℕ, ◌-◌, ◌≤◌, ◌<◌, ◌≡◌, inl, inr, ◌∙◌, leb, ◌==◌, if◌then◌else◌, List, [], ◌∷◌, Bool, true, false,
  ◌||◌, not, Bool-cases, arith, All, u64_max,
}
use open_coroutine.Queue.Deques.{Injectors}
use open_coroutine.Pool.Task.{Task}
use open_coroutine.Pool.Defs
use open_coroutine.Pool.Defs.{
  Pool, PoolState, Ran, idle, ran, broken, Pause, returned, suspended, blocked, panicked, exhausted,
  is_stopping, Grown, unneeded, grown, refused,
}
use open_coroutine.Pool.Bounds.{Paused, work-Paused}
use open_coroutine.Pool.Size
use open_coroutine.Pool.Size.{
  Crew, Action, submits, grows, turns, in_syscall, takes, sets_min, sets_max, sets_keep_alive,
  changes,
}

-- A greatest number that is set is within the bound.
abbrev pub Allowed : ℕ → Action → Type 0
Allowed bound (sets_max n) = n ≤ bound
Allowed bound (submits task) = Unit
Allowed bound (grows should submitted) = Unit
Allowed bound (turns fuel create_time now submitted gives_way) = Unit
Allowed bound (in_syscall submitted) = Unit
Allowed bound (takes name) = Unit
Allowed bound (sets_min n) = Unit
Allowed bound (sets_keep_alive n) = Unit
Allowed bound (changes state) = Unit

module _ (injectors : Injectors Task) where
  -- The counter is the number of workers alive, and at most the bound, as is the greatest number.
  unfoldable pub Manned : ℕ → Crew injectors → Type 0
  Manned bound c = (c.pool.running ≡ c.alive) × (c.alive ≤ bound) × (c.pool.max_size ≤ bound)

  below : (a b : Bool) (x y : ℕ) → (a || b || leb x y) ≡ false → y < x
  below a b x y e = ground arith

  fetched : (n alive : ℕ) → n ≡ alive → 0 < alive → (if n == 0 then u64_max else n - 1) ≡ alive - 1
  fetched n alive e h = ground arith

  hired-Manned :
      (bound alive : ℕ) (should submitted : Bool) (p : Pool injectors)
      → p.running ≡ alive
      → alive ≤ bound
      → p.max_size ≤ bound
      → Manned bound (Size.hired injectors alive (Defs.grow injectors should submitted p))
  unfolding Manned Defs.grow
  hired-Manned bound alive should submitted p e b m =
      elim (Bool-cases (not should || Defs.is_empty injectors p || leb p.max_size p.running)) [
        | inl full ↦ rw (full) (e, b, m)
        | inr needed ↦
            let room = below (not should) (Defs.is_empty injectors p) p.max_size p.running needed in
            elim (Bool-cases submitted) [
              | inl s ↦ rw (needed) (rw (s) (omega arith, omega arith, m))
              | inr s ↦ rw (needed) (rw (s) (e, b, m))
            ]
      ]

  on_suspend-Manned :
      (bound alive : ℕ) (submitted : Bool) (p : Pool injectors)
      → p.running ≡ alive
      → alive ≤ bound
      → p.max_size ≤ bound
      → Manned bound (Size.on_suspend injectors submitted alive p)
  unfolding Size.on_suspend
  on_suspend-Manned bound alive submitted p e b m = hired-Manned bound alive true submitted p e b m

  turned-Manned :
      (bound create_time now : ℕ) (submitted gives_way : Bool) (c : Crew injectors)
      (r : Pool injectors × Pause)
      → Manned bound c
      → 0 < c.alive
      → Paused injectors create_time now c.pool r
      → Manned bound (Size.turned injectors submitted gives_way c.alive r)
  unfolding Manned Paused Size.on_error
  turned-Manned bound create_time now submitted gives_way c (q, returned) (e, b, m) one h =
      (omega (arith, h.0), omega arith, omega (arith, h.1))
  turned-Manned bound create_time now submitted gives_way c (q, suspended) (e, b, m) one h =
      on_suspend-Manned bound c.alive submitted q (h.0 ∙ e) b (omega (arith, h.1))
  turned-Manned bound create_time now submitted true c (q, blocked) (e, b, m) one h =
      on_suspend-Manned bound c.alive submitted (Defs.unblocked injectors q) (h.0 ∙ e) b
        (omega (arith, h.1))
  turned-Manned bound create_time now submitted false c (q, blocked) (e, b, m) one h =
      (h.0 ∙ e, b, omega (arith, h.1))
  turned-Manned bound create_time now submitted gives_way c (q, panicked) (e, b, m) one h =
      hired-Manned bound (c.alive - 1) true submitted (Size.fetch_sub injectors q)
        (fetched q.running c.alive (h.0 ∙ e) one) (omega arith) (omega (arith, h.1))
  turned-Manned bound create_time now submitted gives_way c (q, exhausted) (e, b, m) one h =
      (h.0 ∙ e, b, omega (arith, h.1))

  took_result :
      (bound name : ℕ) (c : Crew injectors)
      → Manned bound c
      → Manned bound (record c { pool = (Defs.try_get_result injectors name c.pool).0 })
  unfolding Manned Defs.try_get_result
  took_result bound name c h = h

  act-Manned :
      (bound : ℕ) (a : Action) (c : Crew injectors)
      → Allowed bound a
      → Manned bound c
      → Manned bound (Size.act injectors a c)
  unfolding Size.act Manned
  act-Manned bound (submits task) c ok h = h
  act-Manned bound (grows should submitted) c ok (e, b, m) =
      hired-Manned bound c.alive should submitted c.pool e b m
  act-Manned bound (turns fuel create_time now submitted gives_way) c ok h =
      elim (Bool-cases (c.alive == 0)) [
        | inl none_alive ↦ rw (none_alive) h
        | inr some_alive ↦ rw (some_alive) (
            turned-Manned bound create_time now submitted gives_way c
              (Defs.work injectors fuel create_time now c.pool) h (ground arith)
              (work-Paused injectors fuel create_time now c.pool))
      ]
  act-Manned bound (in_syscall submitted) c ok (e, b, m) = elim (Bool-cases (c.alive == 0)) [
    | inl none_alive ↦ rw (none_alive) (e, b, m)
    | inr some_alive ↦ rw (some_alive) (on_suspend-Manned bound c.alive submitted c.pool e b m)
  ]
  act-Manned bound (takes name) c ok h = took_result bound name c h
  act-Manned bound (sets_min n) c ok h = h
  act-Manned bound (sets_max n) c ok (e, b, m) = (e, b, ok)
  act-Manned bound (sets_keep_alive n) c ok h = h
  act-Manned bound (changes state) c ok h = h

  -- From a pool without workers, whatever tasks are submitted, workers created or refused, turns
  -- taken to any end, panics included, results fetched and settings changed, in whatever order: the
  -- counter of workers is the number of those alive, and never above a bound on all greatest numbers
  -- that were ever set.
  pub acts-Manned :
      (bound : ℕ) (actions : List Action) (c : Crew injectors)
      → All (Allowed bound) actions
      → Manned bound c
      → Manned bound (Size.acts injectors actions c)
  acts-Manned bound [] c allowed h = h
  acts-Manned bound (a ∷ actions) c allowed h =
      acts-Manned bound actions (Size.act injectors a c) (allowed.1)
        (act-Manned bound a c (allowed.0) h)
