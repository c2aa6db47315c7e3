-- ===== src/Net/Comes.antt =====
-- When a join on an event loop finds the result: the rounds of wait_result of
-- open-coroutine-core/src/net/event_loop.rs until the result stands under its name.
use open_coroutine.Base.{
  ℕ, zero, suc, ◌-◌, ◌<◌, ◌≡◌, ◌≢◌, refl, ap, ◌==◌, arith, min, true, false, Option, none, some,
}
use open_coroutine.Queue.Deques.{Injectors}
use open_coroutine.Pool.Task.{Task, Outcome}
use open_coroutine.Pool.Defs
use open_coroutine.Pool.Lifecycle.{is_running}
use open_coroutine.Net.Selector.{Pollers}
use open_coroutine.Net.EventLoop
use open_coroutine.Net.EventLoop.{EventLoop, Waited, count, result, once}
use open_coroutine.Net.Join
use open_coroutine.Net.Join.{Joined, ends}

module _ (injectors : Injectors Task) (pollers : Pollers) where
  abbrev Loop : Type 0
  Loop = EventLoop injectors pollers

  module _ (turn : ℕ → Loop → Loop × Waited) (on_thread : ℕ → Loop → Loop × Option Outcome)
      (name : ℕ) (r : Outcome) where
    -- In the time that is left the result comes under the name, in a round that this number of others
    -- precede: a round waits for events where the event loop has no thread of its own, and else waits
    -- for that thread.
    pub data Comes : ℕ → ℕ → Loop → Type 0 where
      by_turn :
          {left n : ℕ} {l l' : Loop}
          → 0 < left
          → is_running l.pool.state ≡ false
          → turn (min left once) l ≡ (l', count n)
          → l'.pool.results name ≡ some r
          → Comes 0 left l
      by_thread :
          {left : ℕ} {l l' : Loop}
          → 0 < left
          → is_running l.pool.state ≡ true
          → on_thread (min left once) l ≡ (l', some r)
          → Comes 0 left l
      behind_turn :
          {rounds left n : ℕ} {l l' : Loop}
          → 0 < left
          → is_running l.pool.state ≡ false
          → turn (min left once) l ≡ (l', count n)
          → l'.pool.results name ≡ none
          → Comes rounds
              (left - once)
              (record l' { pool = (Defs.try_get_result injectors name l'.pool).0 })
          → Comes (suc rounds) left l
      behind_thread :
          {rounds left : ℕ} {l l' : Loop}
          → 0 < left
          → is_running l.pool.state ≡ true
          → on_thread (min left once) l ≡ (l', none)
          → Comes rounds (left - once) l'
          → Comes (suc rounds) left l

    -- The wait has ended with the result.
    abbrev pub Yields : EventLoop.Run injectors pollers → Type 0
    Yields none = ⊥
    Yields (some (l, e)) = e ≡ result r

    time_left : (left : ℕ) → 0 < left → (left == 0) ≡ false
    time_left left h = ground arith

    not_empty : (k : ℕ) → k ≢ 0 → (k == 0) ≡ false
    not_empty k h = ground arith

    Comes-Yields :
        (fuel rounds left : ℕ) (l : Loop)
        → Comes rounds left l
        → rounds < fuel
        → Yields (EventLoop.wait_rounds injectors pollers turn on_thread name fuel left l)
    unfolding EventLoop.wait_rounds Defs.try_get_result
    Comes-Yields zero rounds left l c enough = absurd (omega arith)
    Comes-Yields (suc fuel) zero left l (by_turn h idle at there) enough =
        rw (time_left left h, idle, at, there) refl
    Comes-Yields (suc fuel) zero left l (by_thread h runs at) enough =
        rw (time_left left h, runs, at) refl
    Comes-Yields (suc fuel) (suc rounds) left l (behind_turn h idle at absent c) enough =
        rw (time_left left h, idle, at, absent)
          (Comes-Yields fuel rounds (left - once) _ c (omega arith))
    Comes-Yields (suc fuel) (suc rounds) left l (behind_thread h runs at c) enough =
        rw (time_left left h, runs, at) (Comes-Yields fuel rounds (left - once) _ c (omega arith))

    -- A join has ended with the result.
    abbrev pub Joins : Option (Loop × Joined) → Type 0
    Joins none = ⊥
    Joins (some (l, j)) = j ≡ ends (result r)

    after_wait-Joins :
        (wait : EventLoop.Run injectors pollers)
        → Yields wait
        → Joins (Join.after_wait injectors pollers wait)
    after_wait-Joins none y = y
    after_wait-Joins (some (l, e)) y = ap ends y

    -- A join by a name that is not empty gives the result, if it comes in the time that is left, for
    -- any number of rounds before it, given a turn for each of them and one more.
    pub timeout_at_join-Joins :
        (fuel rounds timeout_time now : ℕ) (l : Loop)
        → name ≢ 0
        → Comes rounds (timeout_time - now) l
        → rounds < fuel
        → Joins (Join.timeout_at_join injectors pollers turn on_thread fuel name timeout_time now l)
    unfolding Join.timeout_at_join
    timeout_at_join-Joins fuel rounds timeout_time now l named c enough =
        rw (not_empty name named)
          (after_wait-Joins _ (Comes-Yields fuel rounds (timeout_time - now) l c enough))
