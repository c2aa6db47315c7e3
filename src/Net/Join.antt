-- ===== src/Net/Join.antt =====
-- The join handle of an event loop, `JoinHandleImpl` of open-coroutine-core/src/net/event_loop.rs, and
-- the tokens of its events. The name 0 is the empty string; where a string's bytes stand is a parameter.
use open_coroutine.Base.{
  ℕ, ◌-◌, ◌*◌, ◌≤◌, ◌<◌, ◌≡◌, ◌≢◌, refl, ◌==◌, ==→eq, arith, if◌then◌else◌, Bool-cases, inl, inr,
  Option, none, some,
}
use open_coroutine.Queue.Deques.{Injectors}
use open_coroutine.Pool.Task.{Task, Outcome}
use open_coroutine.Pool.Defs
use open_coroutine.Net.Selector.{Pollers}
use open_coroutine.Net.EventLoop
use open_coroutine.Net.EventLoop.{EventLoop, Ended, Waited, once}
use open_coroutine.Net.Rounds

-- How a join ends.
pub data Joined : Type 0 where
  ends : Ended → Joined
  invalid_input : Joined

-- `token`, where the coroutine of the thread is `current`: the address of a copy of its name, or the
-- number of the thread.
unfoldable pub token : (ℕ → ℕ) → ℕ → Option ℕ → ℕ
token address_of thread_id none = thread_id
token address_of thread_id (some name) = address_of name

module _ (injectors : Injectors Task) (pollers : Pollers) where
  abbrev Loop : Type 0
  Loop = EventLoop injectors pollers

  -- `submit_raw`, and the name in the handle that it returns.
  unfoldable pub submit_raw : Task → Loop → Loop × ℕ
  submit_raw task l = (record l { pool = Defs.submit_raw injectors task l.pool }, task.name)

  abbrev pub after_wait : EventLoop.Run injectors pollers → Option (Loop × Joined)
  after_wait none = none
  after_wait (some (l, e)) = some (l, ends e)

  -- `timeout_at_join` at the time `now`.
  unfoldable pub timeout_at_join :
      (ℕ → Loop → Loop × Waited)
      → (ℕ → Loop → Loop × Option Outcome)
      → ℕ
      → ℕ
      → ℕ
      → ℕ
      → Loop
      → Option (Loop × Joined)
  timeout_at_join turn on_thread fuel name timeout_time now l =
      if name == 0
      then some (l, invalid_input)
      else after_wait
          (EventLoop.wait_rounds injectors pollers turn on_thread name fuel (timeout_time - now) l)

  -- How a join has come to an end, given how the wait for the result does: with the error for an
  -- invalid name, and then at once; or as the wait, in the event loop that the wait leaves.
  abbrev pub Ends : ℕ → Loop → EventLoop.Run injectors pollers → Option (Loop × Joined) → Type 0
  Ends name l wait none = ⊥
  Ends name l wait (some (l', invalid_input)) = (name ≡ 0) × (l' ≡ l)
  Ends name l wait (some (l', ends e)) = (name ≢ 0) × (wait ≡ some (l', e))

  after_wait-Ends :
      (name : ℕ) (l : Loop) (wait : EventLoop.Run injectors pollers)
      → name ≢ 0
      → Rounds.Returns injectors pollers wait
      → Ends name l wait (after_wait wait)
  after_wait-Ends name l none named returns = returns
  after_wait-Ends name l (some (l', e)) named returns = (named, refl)

  -- A join on an event loop ends within one round more than the ten milliseconds that its time is
  -- worth, whatever the rounds do: for the empty name with the error for an invalid name and the event
  -- loop unchanged, and for any other with exactly the ending of wait_result for the time that is
  -- left until the timestamp, and with the event loop that wait_result leaves.
  pub timeout_at_join-Ends :
      (turn : ℕ → Loop → Loop × Waited) (on_thread : ℕ → Loop → Loop × Option Outcome)
      (n fuel name timeout_time now : ℕ) (l : Loop)
      → timeout_time - now ≤ n * once
      → n < fuel
      → Ends name l
          (EventLoop.wait_rounds injectors pollers turn on_thread name fuel (timeout_time - now) l)
          (timeout_at_join turn on_thread fuel name timeout_time now l)
  unfolding timeout_at_join
  timeout_at_join-Ends turn on_thread n fuel name timeout_time now l short enough =
      elim (Bool-cases (name == 0)) [
        | inl empty ↦ rw (empty) (==→eq name 0 empty, refl)
        | inr named ↦ rw (named) (
            after_wait-Ends name l _ (ground arith) (
              Rounds.wait_rounds-Returns injectors pollers turn on_thread name n fuel
                (timeout_time - now) l short enough))
      ]
