-- ===== src/Pool/Size.antt =====
-- How many workers the pool of open-coroutine-core/src/pool has: the counter `running` against the
-- workers that are alive, with the callbacks of open-coroutine-core/src/pool/creator.rs.
use open_coroutine.Base.{ℕ, ◌+◌, ◌-◌, ◌==◌, if◌then◌else◌, List, [], ◌∷◌, Bool, true, u64_max}
use open_coroutine.Queue.Deques.{Injectors}
use open_coroutine.Pool.Task.{Task}
use open_coroutine.Pool.Defs
use open_coroutine.Pool.Defs.{
  Pool, PoolState, Ran, idle, ran, broken, Pause, returned, suspended, blocked, panicked, exhausted,
  is_stopping, Grown, unneeded, grown, refused,
}

-- A pool with the number of its workers that are alive.
pub record Crew (injectors : Injectors Task) : Type 0 where
  pub pool : Pool injectors
  pub alive : ℕ

-- `submitted` tells whether the scheduler accepts a worker, should one be created. A turn of a worker is
-- given its fuel, the time it was created and the time; `gives_way` tells whether the blocker
-- suspends the worker that it blocks.
pub data Action : Type 0 where
  submits : Task → Action
  grows : Bool → Bool → Action
  turns : ℕ → ℕ → ℕ → Bool → Bool → Action
  in_syscall : Bool → Action
  takes : ℕ → Action
  sets_min sets_max sets_keep_alive : ℕ → Action
  changes : PoolState → Action

module _ (injectors : Injectors Task) where
  abbrev pub hired : ℕ → Pool injectors × Grown → Crew injectors
  hired alive (p, unneeded) = record { pool = p; alive = alive }
  hired alive (p, grown) = record { pool = p; alive = alive + 1 }
  hired alive (p, refused) = record { pool = p; alive = alive }

  -- `CoroutineCreator::on_suspend` and `on_syscall`, with the pool as the current one.
  unfoldable pub on_suspend : Bool → ℕ → Pool injectors → Crew injectors
  on_suspend submitted alive p = hired alive (Defs.grow injectors true submitted p)

  -- `fetch_sub` wraps around.
  abbrev pub fetch_sub : Pool injectors → Pool injectors
  fetch_sub p = record p { running = (if p.running == 0 then u64_max else p.running - 1) }

  unfoldable pub on_error : Bool → ℕ → Pool injectors → Crew injectors
  on_error submitted alive p = hired alive (Defs.grow injectors true submitted (fetch_sub p))

  -- What a worker's turn leads to.
  abbrev pub turned : Bool → Bool → ℕ → Pool injectors × Pause → Crew injectors
  turned submitted gives_way alive (p, returned) = record { pool = p; alive = alive - 1 }
  turned submitted gives_way alive (p, suspended) = on_suspend submitted alive p
  turned submitted gives_way alive (p, blocked) =
      if gives_way
      then on_suspend submitted alive (Defs.unblocked injectors p)
      else record { pool = Defs.unblocked injectors p; alive = alive }
  turned submitted gives_way alive (p, panicked) = on_error submitted (alive - 1) p
  turned submitted gives_way alive (p, exhausted) = record { pool = p; alive = alive }

  -- A turn is that of a worker that is alive.
  unfoldable pub act : Action → Crew injectors → Crew injectors
  act (submits task) c = record c { pool = Defs.submit_raw injectors task c.pool }
  act (grows should submitted) c = hired c.alive (Defs.grow injectors should submitted c.pool)
  act (turns fuel create_time now submitted gives_way) c =
      if c.alive == 0
      then c
      else turned submitted gives_way c.alive (Defs.work injectors fuel create_time now c.pool)
  act (in_syscall submitted) c = if c.alive == 0 then c else on_suspend submitted c.alive c.pool
  act (takes name) c = record c { pool = (Defs.try_get_result injectors name c.pool).0 }
  act (sets_min n) c = record c { pool = Defs.set_min_size injectors n c.pool }
  act (sets_max n) c = record c { pool = Defs.set_max_size injectors n c.pool }
  act (sets_keep_alive n) c = record c { pool = Defs.set_keep_alive_time injectors n c.pool }
  act (changes state) c = record c { pool = (Defs.change_state injectors state c.pool).0 }

  abbrev pub acts : List Action → Crew injectors → Crew injectors
  acts [] c = c
  acts (a ∷ actions) c = acts actions (act a c)
