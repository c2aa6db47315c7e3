-- ===== src/Syscall/Enter.antt =====
-- The macro `change_state` of open-coroutine-core/src/syscall/state.rs around a system call. What the
-- call does to the current coroutine is a list of operations; the stack is `SYSCALL` of
-- open-coroutine-core/src/constants.rs, which all coroutines of the thread share, and what they do to it
-- during the call is a parameter; `none` stands for a panic of an `expect`.
use open_coroutine.Base.{◌≡◌, ◌≢◌, refl, List, [], ◌∷◌, Option, none, some}
use open_coroutine.Coroutine.State.{
  Syscall, Syscall-discrete, SyscallState, computing, finished, CoroutineState,
}
use open_coroutine.Coroutine.Machine.{Change, Operation, perform, syscall, syscall_resume}
use mathlib.Core.Logic.{if_pos, if_neg}

abbrev pub State : Type 0
State = CoroutineState (Unit {0}) (Unit {0})

-- `Syscall::init_current` and `clean_current`.
abbrev pub init_current : Syscall → List Syscall → List Syscall
init_current call stack = call ∷ stack

abbrev pub clean_current : List Syscall → List Syscall
clean_current [] = []
clean_current (call ∷ stack) = stack

abbrev pub expected : Change (Unit {0}) (Unit {0}) → Option State
expected (s, none) = some s
expected (s, some e) = none

abbrev pub and_then : Option State → (State → Option State) → Option State
and_then none f = none
and_then (some s) f = f s

-- The coroutine's way through the call.
unfoldable pub through : Syscall → List (Operation (Unit {0}) (Unit {0})) → State → Option State
unfolding syscall syscall_resume
through call os s = and_then (expected (syscall tt call computing s)) (λ s1.
    and_then (expected (syscall tt call finished (perform os s1)))
      (λ s2. expected (syscall_resume s2)))

-- With the current coroutine, if there is one. It is the one that made the call, which others may have
-- followed on the thread until it goes on.
unfoldable pub change_state :
    Syscall
    → List (Operation (Unit {0}) (Unit {0}))
    → (List Syscall → List Syscall)
    → List Syscall
    → Option State
    → Option (List Syscall × Option State)
unfolding through
change_state call os others stack none =
    some (clean_current (others (init_current call stack)), none)
change_state call os others stack (some s) = elim (through call os s) [
  | none ↦ none
  | some s' ↦ some (clean_current (others (init_current call stack)), some s')
]

pub same_call :
    (call : Syscall) (new old : SyscallState)
    → syscall {Y = Unit {0}} {R = Unit {0}} tt call new (CoroutineState.system_call tt call old)
      ≡ (CoroutineState.system_call tt call new, none)
unfolding syscall
same_call call new old = rw (if_pos (Syscall-discrete call call) refl)

other_call :
    (call other : Syscall) (new old : SyscallState)
    → other ≢ call
    → expected (syscall tt call new (CoroutineState.system_call tt other old)) ≡ none
unfolding syscall
other_call call other new old differs = rw (if_neg (Syscall-discrete other call) differs)

through-running :
    (call : Syscall) (os : List (Operation (Unit {0}) (Unit {0}))) (st : SyscallState)
    → perform os (CoroutineState.system_call tt call computing)
      ≡ CoroutineState.system_call tt call st
    → through call os CoroutineState.running ≡ some CoroutineState.running
unfolding through syscall syscall_resume
through-running call os st within = rw (within) (rw (same_call call finished st) refl)

-- A system call made while the coroutine is running, within which it stays in that call, brings the
-- coroutine back to running, and takes off whatever call is on the top of the thread's stack then.
pub change_state-running :
    (call : Syscall) (os : List (Operation (Unit {0}) (Unit {0})))
    (others : List Syscall → List Syscall) (stack : List Syscall) (st : SyscallState)
    → perform os (CoroutineState.system_call tt call computing)
      ≡ CoroutineState.system_call tt call st
    → change_state call os others stack (some CoroutineState.running)
      ≡ some (clean_current (others (init_current call stack)), some CoroutineState.running)
unfolding change_state
change_state-running call os others stack st within =
    rw (through-running call os st within, change_state) refl

-- A system call that the coroutine makes while it is within a different system call panics.
pub change_state_nested :
    (call other : Syscall) (os : List (Operation (Unit {0}) (Unit {0})))
    (others : List Syscall → List Syscall) (stack : List Syscall) (st : SyscallState)
    → other ≢ call
    → change_state call os others stack (some (CoroutineState.system_call tt other st)) ≡ none
unfolding change_state through
change_state_nested call other os others stack st differs =
    rw (other_call call other computing st differs, through, change_state) refl
