-- ===== src/Net/Exit.antt =====
-- The threads that `start` of open-coroutine-core/src/net/event_loop.rs spawns, and the wait of
-- `EventLoops::stop` in core.rs for all of them, by the number `shared_stop`. The three readings of a
-- thread's loop test are one step.
use open_coroutine.Base.{
  ℕ, ◌+◌, ◌-◌, ◌==◌, ltb, if◌then◌else◌, List, [], ◌∷◌, none, some, Bool, false, ◌||◌, not,
  get_elem?, set_nth,
}
use open_coroutine.Queue.Deques.{Injectors}
use open_coroutine.Pool.Task.{Task}
use open_coroutine.Pool.Defs
use open_coroutine.Pool.Defs.{PoolState}
use open_coroutine.Pool.Lifecycle.{is_created, is_running}
use open_coroutine.Net.Selector.{Pollers}
use open_coroutine.Net.EventLoop.{EventLoop, new_pending}

module _ (injectors : Injectors Task) (pollers : Pollers) where
  abbrev pub Loop : Type 0
  Loop = EventLoop injectors pollers

  -- `start`: the loop, and whether the assertion on its state holds.
  unfoldable pub start : Loop → Loop × Bool
  start l =
      (record l { pool = record l.pool { state = PoolState.running } }, is_created l.pool.state)

  -- The test of the thread's loop.
  abbrev pub goes_on : Loop → Bool
  goes_on l =
      is_running l.pool.state || not (Defs.is_empty injectors l.pool) || not (l.pool.running == 0)

  -- Where a thread stands: in its loop; behind it, before the flag `pending` and before the number;
  -- or at its end. Behind the loop it keeps the event loop as it was at the last test.
  pub data Stage : Type 0 where
    loops : Stage
    lowers counts over : Loop → Stage

  pub record Runner : Type 0 where
    pub event_loop : Loop
    pub pending : Bool
    pub stage : Stage

  -- The threads, and how many of them have counted themselves.
  pub record Exit : Type 0 where
    pub stopped : ℕ
    pub runners : List Runner

  -- A thread runs on, the wait of its round given; or something is done to an event loop by another
  -- thread, such as `stop` or `submit`.
  pub data Move : Type 0 where
    runs : ℕ → (Loop → Loop) → Move
    others : ℕ → (Loop → Loop) → Move

  abbrev pub at_place : ℕ → Runner → Exit → Exit
  at_place i r e = record e { runners = set_nth e.runners i r }

  -- The next step of a thread. The number is counted up under the lock.
  unfoldable pub advance : ℕ → (Loop → Loop) → Runner → Stage → Exit → Exit
  advance i wait_event r loops e =
      if goes_on r.event_loop
      then at_place i (record r { event_loop = wait_event r.event_loop }) e
      else at_place i (record r { stage = lowers r.event_loop }) e
  advance i wait_event r (lowers l) e =
      at_place i (record r { pending = false; stage = counts l }) e
  advance i wait_event r (counts l) e =
      at_place i (record r { stage = over l }) (record e { stopped = e.stopped + 1 })
  advance i wait_event r (over l) e = e

  abbrev pub index_of : Move → ℕ
  index_of (runs i wait_event) = i
  index_of (others i change) = i

  abbrev pub made : Move → Runner → Exit → Exit
  made (runs i wait_event) r e = advance i wait_event r r.stage e
  made (others i change) r e = at_place i (record r { event_loop = change r.event_loop }) e

  unfoldable pub move : Move → Exit → Exit
  unfolding advance
  move m e = elim (get_elem? e.runners (index_of m)) [ none ↦ e | some r ↦ made m r e ]

  unfoldable pub moves : List Move → Exit → Exit
  unfolding move
  moves [] e = e
  moves (m ∷ ms) e = moves ms (move m e)

  -- A thread for each event loop, which `start` has started.
  unfoldable pub spawned : List Loop → List Runner
  unfolding start
  spawned [] = []
  spawned (l ∷ ls) =
      record { event_loop = (start l).0; pending = new_pending injectors pollers; stage = loops }
      ∷ spawned ls

  -- The condition of the wait in `EventLoops::stop` of `n` loops, of which the monitor's has no
  -- thread: the wait goes on while fewer have stopped.
  unfoldable pub waits_on : ℕ → Exit → Bool
  waits_on n e = ltb e.stopped (n - 1)
