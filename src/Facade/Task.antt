-- ===== src/Facade/Task.antt =====
-- Coroutines by open-coroutine: `co` of open-coroutine/src/coroutine.rs and `JoinHandle` of join.rs, on
-- coroutine_crate, coroutine_join and coroutine_timeout_join of open-coroutine-hooks/src/coroutine.rs.
-- Addresses have 64 bits; the heap, which is the system's, is a parameter.
use open_coroutine.Base.{
  ℕ, ◌-◌, ◌^◌, ◌%◌, ◌<◌, ◌≡◌, ◌≢◌, ap, ◌∙◌, ltb, if◌then◌else◌, ℤ, pos, negsuc, Option, none, some,
  u64_max, arith,
}
use mathlib.Core.Path.{subst}
use open_coroutine.Timer.Deadline.{get_timeout_time}
use open_coroutine.Queue.Deques.{Injectors}
use open_coroutine.Pool.Task
use open_coroutine.Pool.Task.{Task, Ending, returns, Outcome, ok, err}
use open_coroutine.Net.Selector.{Pollers}
use open_coroutine.Net.EventLoop.{
  EventLoop, Waited, Ended, result, timed_out, fails, breaks, stopped,
}
use open_coroutine.Net.Join as Handle
use open_coroutine.Net.Join.{ends, invalid_input}
use open_coroutine.Net.Comes
use open_coroutine.Net.Comes.{Comes}

-- Where values are leaked on the heap, and what is read at an address.
pub record Heap (A : Type 0) : Type 0 where
  pub leak : A → ℕ
  pub read : ℕ → A

-- A value that is leaked stays at its address, which is not null, and which is in the lower half of the
-- addresses, where a process has its memory.
pub record IsKept {A : Type 0} (heap : Heap A) (x : A) : Type 0 where
  pub same : heap.read (heap.leak x) ≡ x
  pub positive : 0 < heap.leak x
  pub small : heap.leak x < 2 ^ 63

-- What `join` of open-coroutine returns: an error, `Ok(None)`, or `Ok(Some(..))`.
pub data Joined (R : Type 0) : Type 0 where
  failed nothing : Joined R
  value : R → Joined R

-- `usize` to `c_long`.
abbrev pub to_long : ℕ → ℤ
to_long x = if ltb x (2 ^ 63) then pos x else negsuc (2 ^ 64 - 1 - x)

to_long_small : (x : ℕ) → x < 2 ^ 63 → to_long x ≡ pos x
to_long_small x small = ground arith

-- The match of `coroutine_join` and `coroutine_timeout_join` on how the handle's join ends. A panic may
-- not leave them, which is `none`; and no join ends as `stop` does.
abbrev pub returned : Ended → Option ℤ
returned (result (ok (some ptr))) = some (to_long ptr)
returned (result (ok none)) = some (pos 0)
returned (result (err text)) = some (negsuc 0)
returned timed_out = some (negsuc 0)
returned fails = some (negsuc 0)
returned breaks = none
returned stopped = none

abbrev pub c_long_of : Handle.Joined → Option ℤ
c_long_of (ends e) = returned e
c_long_of invalid_input = some (negsuc 0)

module _ (injectors : Injectors Task) (pollers : Pollers) where
  abbrev pub Loop : Type 0
  Loop = EventLoop injectors pollers

  -- The number behind a join, with the event loop that it leaves, or none where it is still running.
  abbrev pub with_c_long : Option (Loop × Handle.Joined) → Option (Loop × Option ℤ)
  with_c_long none = none
  with_c_long (some (l, j)) = some (l, c_long_of j)

  -- The handle's join until a timestamp: on the event loop, by the name in the handle.
  unfoldable pub joined_until :
      (ℕ → Loop → Loop × Waited)
      → (ℕ → Loop → Loop × Option Outcome)
      → ℕ
      → ℕ
      → ℕ
      → ℕ
      → Loop
      → Option (Loop × Option ℤ)
  joined_until turn on_thread fuel timeout_time name now l =
      with_c_long
        (Handle.timeout_at_join injectors pollers turn on_thread fuel name timeout_time now l)

  -- `coroutine_join` waits until the greatest timestamp, `coroutine_timeout_join` for a duration.
  unfoldable pub coroutine_join :
      (ℕ → Loop → Loop × Waited)
      → (ℕ → Loop → Loop × Option Outcome)
      → ℕ
      → ℕ
      → ℕ
      → Loop
      → Option (Loop × Option ℤ)
  unfolding joined_until
  coroutine_join turn on_thread fuel name now l =
      joined_until turn on_thread fuel u64_max name now l

  unfoldable pub coroutine_timeout_join :
      (ℕ → Loop → Loop × Waited)
      → (ℕ → Loop → Loop × Option Outcome)
      → ℕ
      → ℕ
      → ℕ
      → ℕ
      → Loop
      → Option (Loop × Option ℤ)
  unfolding joined_until
  coroutine_timeout_join turn on_thread fuel ns_time name now l =
      joined_until turn on_thread fuel (get_timeout_time ns_time now) name now l

-- What `timeout_join` of open-coroutine gives to coroutine_timeout_join: the duration cut to 64 bits.
abbrev pub ns_time_of : ℕ → ℕ
ns_time_of nanos = nanos % 2 ^ 64

module _ (injectors : Injectors Task) (pollers : Pollers) {P R : Type 0}
    (inputs : Heap ((P → R) × P)) (results : Heap R) where
  -- `co_main` for a closure that returns, which coroutine_crate calls with the task's parameter, or 0
  -- where that is missing. A panic would leave a function with the calling convention of C, which
  -- the language does not let it do.
  unfoldable pub co_main : ℕ → ℕ
  co_main input = let (f, param) = inputs.read input in results.leak (f param)

  abbrev pub called : Option ℕ → Ending
  called none = returns (some (co_main 0))
  called (some param) = returns (some (co_main param))

  -- The task that `co` submits, under the name that the pool gives it. The size of the stack is dropped.
  unfoldable pub co : ℕ → (P → R) → P → ℕ → Task
  co name f param stack_size = Task.new name called (some (inputs.leak (f, param)))

  -- `JoinHandle::join` and `timeout_join` on the number that they are given.
  unfoldable pub join : ℤ → Joined R
  join (negsuc n) = failed
  join (pos n) = if ltb 0 n then value (results.read n) else nothing

  join-pos : (n : ℕ) → 0 < n → join (pos n) ≡ value (results.read n)
  unfolding join
  join-pos n positive = ground arith

  -- The number that a join gives is taken for the result.
  abbrev pub Gives : R → Option (EventLoop injectors pollers × Option ℤ) → Type 0
  Gives r none = ⊥
  Gives r (some (l, none)) = ⊥
  Gives r (some (l, some c)) = join c ≡ value r

  join-leak : (r : R) → IsKept results r → join (to_long (results.leak r)) ≡ value r
  join-leak r kept =
      ap join (to_long_small (results.leak r) kept.small)
      ∙ join-pos (results.leak r) kept.positive
      ∙ ap value kept.same

  co_main-leak :
      (f : P → R) (param : P)
      → IsKept inputs (f, param)
      → co_main (inputs.leak (f, param)) ≡ results.leak (f param)
  unfolding co_main
  co_main-leak f param kept = ap (λ d. results.leak (d.0 d.1)) kept.same

  run-co :
      (name stack_size : ℕ) (f : P → R) (param : P)
      → IsKept inputs (f, param)
      → (Task.run (co name f param stack_size)).1 ≡ ok (some (results.leak (f param)))
  unfolding co
  run-co name stack_size f param given = ap (λ a. ok (some a)) (co_main-leak f param given)

  module _ (turn : ℕ → Loop injectors pollers → Loop injectors pollers × Waited)
      (on_thread : ℕ → Loop injectors pollers → Loop injectors pollers × Option Outcome) where
    Joins-Gives :
        (name : ℕ) (r : R) (o : Option (Loop injectors pollers × Handle.Joined))
        → IsKept results r
        → Comes.Joins injectors pollers turn on_thread name (ok (some (results.leak r))) o
        → Gives r (with_c_long injectors pollers o)
    Joins-Gives name r none kept joins = joins
    Joins-Gives name r (some (l, j)) kept joins = rw (joins) (join-leak r kept)

    -- Where the heap keeps what is given to `co`, and the result: if the outcome of the task that `co`
    -- makes comes under its name, which is not empty, within any number of rounds and the time that a
    -- join has, the join on the event loop returns the result of the closure on its parameter.
    pub join-co :
        (name stack_size fuel rounds now : ℕ) (f : P → R) (param : P) (l : Loop injectors pollers)
        → IsKept inputs (f, param)
        → IsKept results (f param)
        → name ≢ 0
        → Comes injectors pollers turn on_thread name
            (Task.run (co name f param stack_size)).1
            rounds
            (u64_max - now)
            l
        → rounds < fuel
        → Gives (f param) (coroutine_join injectors pollers turn on_thread fuel name now l)
    unfolding coroutine_join
    join-co name stack_size fuel rounds now f param l given kept named comes enough =
        Joins-Gives name (f param) _ kept (
          Comes.timeout_at_join-Joins injectors pollers turn on_thread name
            (ok (some (results.leak (f param)))) fuel rounds u64_max now l named
            (subst (λ o. Comes injectors pollers turn on_thread name o rounds (u64_max - now) l)
              (run-co name stack_size f param given) comes)
            enough)
