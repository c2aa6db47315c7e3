-- ===== src/Pool/Join.antt =====
-- Waiting for a result: `wait_result` of open-coroutine-core/src/pool/mod.rs and `timeout_at_join` of
-- join.rs. The n-th reading of the clock is `clock n`; what other threads do while a thread waits is a
-- parameter. The name 0 is the empty string.
use open_coroutine.Base.{ℕ, zero, suc, ◌-◌, ◌==◌, if◌then◌else◌, Bool, true, Option, none, some}
use open_coroutine.Queue.Deques.{Injectors}
use open_coroutine.Timer.Deadline.{get_timeout_time}
use open_coroutine.Pool.Task.{Task, Outcome}
use open_coroutine.Pool.Defs
use open_coroutine.Pool.Defs.{Pool, put, Ran, idle, ran, broken, notified}
use open_coroutine.Pool.Lifecycle.{Wait, result, wait_timeout, invalid_input, assertion}

module _ (injectors : Injectors Task) where
  -- One turn of the loop within a coroutine, behind its `try_run`.
  abbrev pub looked :
      (Pool injectors → Option (Pool injectors × Wait))
      → ℕ
      → Pool injectors × Option Outcome
      → Option (Pool injectors × Wait)
  looked again left (p, some r) = some (p, result r)
  looked again left (p, none) = if left == 0 then some (p, wait_timeout) else again p

  abbrev pub after_run :
      (Pool injectors → Option (Pool injectors × Wait))
      → ℕ
      → ℕ
      → Pool injectors × Ran
      → Option (Pool injectors × Wait)
  after_run again left name (p, broken) = some (p, assertion)
  after_run again left name (p, idle) = looked again left (Defs.try_get_result injectors name p)
  after_run again left name (p, ran) = looked again left (Defs.try_get_result injectors name p)

  unfoldable pub wait_in_coroutine :
      ℕ → ℕ → (ℕ → ℕ) → ℕ → Pool injectors → Option (Pool injectors × Wait)
  wait_in_coroutine zero timeout_time clock name p = none
  wait_in_coroutine (suc fuel) timeout_time clock name p =
      after_run (λ q. wait_in_coroutine fuel timeout_time (λ n. clock (suc n)) name q)
        (timeout_time - clock 0) name (Defs.try_run injectors p)

  -- A thread registers that it waits, unless the name is waited for already.
  abbrev pub registered : ℕ → Option Bool → Pool injectors → Pool injectors
  registered name (some pending) p = p
  registered name none p = record p { waits = put name (some true) p.waits }

  -- Behind the wait; the entry of the name must still be there when the result is.
  abbrev pub woken : ℕ → Pool injectors × Option Outcome → Pool injectors × Wait
  woken name (p, none) = (p, wait_timeout)
  woken name (p, some r) = (
    record p { waits = put name none p.waits },
    (elim (p.waits name) [ none ↦ assertion | some pending ↦ result r ]),
  )

  unfoldable pub wait_in_thread :
      (Pool injectors → Pool injectors) → ℕ → Pool injectors → Pool injectors × Wait
  wait_in_thread waited name p =
      woken name (Defs.try_get_result injectors name (waited (registered name (p.waits name) p)))

  -- Behind the first look, which takes the name off the waiting ones when the result is there.
  abbrev pub first_look :
      (Pool injectors → Option (Pool injectors × Wait))
      → ℕ
      → Pool injectors × Option Outcome
      → Option (Pool injectors × Wait)
  first_look wait name (p, some r) = some (record p { waits = put name none p.waits }, result r)
  first_look wait name (p, none) = wait p

  unfoldable pub wait_result :
      (Pool injectors → Pool injectors)
      → Bool
      → ℕ
      → (ℕ → ℕ)
      → ℕ
      → ℕ
      → Pool injectors
      → Option (Pool injectors × Wait)
  unfolding wait_in_coroutine wait_in_thread
  wait_result waited in_coroutine fuel clock name wait_time p =
      first_look
        (λ q.
          if in_coroutine
          then wait_in_coroutine fuel (get_timeout_time wait_time (clock 0)) (λ n. clock (suc n))
              name q
          else some (wait_in_thread waited name q))
        name (Defs.try_get_result injectors name p)

  -- `timeout_at_join`; `timeout_join` gives it the timestamp of a duration, `join` the greatest one.
  unfoldable pub timeout_at_join :
      (Pool injectors → Pool injectors)
      → Bool
      → ℕ
      → (ℕ → ℕ)
      → ℕ
      → ℕ
      → Pool injectors
      → Option (Pool injectors × Wait)
  unfolding wait_result
  timeout_at_join waited in_coroutine fuel clock name timeout_time p =
      if name == 0
      then some (p, invalid_input)
      else wait_result waited in_coroutine fuel (λ n. clock (suc n)) name (timeout_time - clock 0) p
