-- ===== src/Coroutine/Machine.antt =====
-- `impl StateMachine for CoroutineImpl` of open-coroutine-core/src/coroutine/korosensei.rs. The
-- reading of the clock is an argument; an operation returns the new value of the cell and its result.
use Prim.Native.String.{String}
use mathlib.Core.Logic.{ite}
use open_coroutine.Base.{ℕ, leb, if◌then◌else◌, Option, none, some, List, [], ◌∷◌}
use open_coroutine.Coroutine.State.{
  Syscall, Syscall-discrete, SyscallState, finished, timeout, CoroutineState,
}

-- `Error::new(ErrorKind::Other, "unexpected {current}->{target}")`.
pub data Unexpected (Y R : Type 0) : Type 0 where
  unexpected : CoroutineState Y R → CoroutineState Y R → Unexpected Y R

-- The cell's value and the `io::Result<()>`, in which `none` is `Ok(())`.
abbrev pub Change : Type 0 → Type 0 → Type 0
Change Y R = CoroutineState Y R × Option (Unexpected Y R)

module _ {Y R : Type 0} where
  abbrev pub refuse : CoroutineState Y R → CoroutineState Y R → Change Y R
  refuse current target = (current, some (unexpected current target))

  unfoldable pub ready : ℕ → CoroutineState Y R → Change Y R
  ready now CoroutineState.created = (CoroutineState.ready, none)
  ready now (CoroutineState.suspend v timestamp) =
      if leb timestamp now
      then (CoroutineState.ready, none)
      else refuse (CoroutineState.suspend v timestamp) CoroutineState.ready
  ready now current = refuse current CoroutineState.ready

  unfoldable pub running : ℕ → CoroutineState Y R → Change Y R
  running now CoroutineState.created = (CoroutineState.running, none)
  running now CoroutineState.ready = (CoroutineState.running, none)
  running now (CoroutineState.suspend v timestamp) =
      if leb timestamp now
      then (CoroutineState.running, none)
      else refuse (CoroutineState.suspend v timestamp) CoroutineState.running
  running now (CoroutineState.system_call v call state) =
      (CoroutineState.system_call v call state, none)
  running now current = refuse current CoroutineState.running

  unfoldable pub suspend : Y → ℕ → CoroutineState Y R → Change Y R
  suspend val timestamp CoroutineState.running = (CoroutineState.suspend val timestamp, none)
  suspend val timestamp current = refuse current (CoroutineState.suspend val timestamp)

  unfoldable pub syscall : Y → Syscall → SyscallState → CoroutineState Y R → Change Y R
  unfolding Syscall-discrete
  syscall val call state CoroutineState.running = (CoroutineState.system_call val call state, none)
  syscall val call state (CoroutineState.system_call v original s) =
      ite (Syscall-discrete original call) (CoroutineState.system_call val call state, none)
        (refuse (CoroutineState.system_call v original s)
          (CoroutineState.system_call val call state))
  syscall val call state current = refuse current (CoroutineState.system_call val call state)

  unfoldable pub syscall_resume : CoroutineState Y R → Change Y R
  syscall_resume (CoroutineState.system_call v call finished) = (CoroutineState.running, none)
  syscall_resume (CoroutineState.system_call v call timeout) = (CoroutineState.running, none)
  syscall_resume current = refuse current CoroutineState.running

  unfoldable pub complete : R → CoroutineState Y R → Change Y R
  complete val CoroutineState.running = (CoroutineState.complete val, none)
  complete val current = refuse current (CoroutineState.complete val)

  unfoldable pub error : String → CoroutineState Y R → Change Y R
  error message CoroutineState.running = (CoroutineState.error message, none)
  error message current = refuse current (CoroutineState.error message)

-- The operations of the trait, each with its arguments and the reading of the clock.
pub data Operation (Y R : Type 0) : Type 0 where
  readies resumes : ℕ → Operation Y R
  suspends : Y → ℕ → Operation Y R
  calls : Y → Syscall → SyscallState → Operation Y R
  returns_from_call : Operation Y R
  completes : R → Operation Y R
  fails : String → Operation Y R

module _ {Y R : Type 0} where
  unfoldable pub apply : Operation Y R → CoroutineState Y R → Change Y R
  unfolding ready running suspend syscall syscall_resume complete error
  apply (Operation.readies now) s = ready now s
  apply (Operation.resumes now) s = running now s
  apply (Operation.suspends v timestamp) s = suspend v timestamp s
  apply (Operation.calls v call state) s = syscall v call state s
  apply Operation.returns_from_call s = syscall_resume s
  apply (Operation.completes r) s = complete r s
  apply (Operation.fails message) s = error message s

  -- The state that the operation is to reach.
  unfoldable pub target : Operation Y R → CoroutineState Y R
  target (Operation.readies now) = CoroutineState.ready
  target (Operation.resumes now) = CoroutineState.running
  target (Operation.suspends v timestamp) = CoroutineState.suspend v timestamp
  target (Operation.calls v call state) = CoroutineState.system_call v call state
  target Operation.returns_from_call = CoroutineState.running
  target (Operation.completes r) = CoroutineState.complete r
  target (Operation.fails message) = CoroutineState.error message

  -- The operations in their order; one that is refused changes nothing.
  unfoldable pub perform : List (Operation Y R) → CoroutineState Y R → CoroutineState Y R
  perform [] s = s
  perform (o ∷ os) s = perform os (apply o s).0
