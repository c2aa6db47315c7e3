-- ===== src/Net/Waits.antt =====
-- What `wait_just` of open-coroutine-core/src/net/event_loop.rs does to the coroutine that waits, on
-- Linux. While it is delayed the scheduler wakes it, at its deadline or at an event; none stands for
-- a panic, of an `expect` or of what is said to be unreachable.
use open_coroutine.Base.{ℕ, ◌≡◌, refl, sym, ap, ◌∙◌, List, [], ◌∷◌, Option, none, some}
use open_coroutine.Coroutine.State.{Syscall, SyscallState, computing, timeout, CoroutineState}
use open_coroutine.Coroutine.Machine.{
  Operation, perform, apply, syscall, suspend, complete, syscall_resume,
}
use open_coroutine.Syscall.Enter.{
  State, expected, and_then, same_call, change_state, change_state-running, init_current,
  clean_current,
}

-- Why the delay ends: its time is over, or an event comes.
pub data Wake : Type 0 where
  deadline event : Wake

-- `check_ready` leaves a call that timed out, `try_resume` one that computes.
abbrev pub woken_to : Wake → SyscallState
woken_to deadline = timeout
woken_to event = computing

-- The system call of a coroutine that waits: its own, or epoll_wait for one that is running.
abbrev pub call_of : State → Option Syscall
call_of CoroutineState.running = some Syscall.epoll_wait
call_of (CoroutineState.system_call v call state) = some call
call_of s = none

abbrev pub goes_to : Syscall → SyscallState → State → Option State
goes_to call state s = expected (syscall tt call state s)

abbrev pub delayed_in : Option Syscall → ℕ → Wake → State → Option State
delayed_in none until wake s = none
delayed_in (some call) until wake s =
    and_then (goes_to call (SyscallState.suspend until) s) (goes_to call (woken_to wake))

-- The delay; `timeout` is the timestamp it ends at, and none where wait_just is given no timeout.
unfoldable pub delayed : Option ℕ → Wake → State → Option State
delayed none wake s = some s
delayed (some until) wake s = delayed_in (call_of s) until wake s

unfoldable pub calling : State → Option State
calling (CoroutineState.system_call v call computing) =
    goes_to call (SyscallState.calling Syscall.epoll_wait)
      (CoroutineState.system_call v call computing)
calling (CoroutineState.system_call v call timeout) =
    goes_to call (SyscallState.calling Syscall.epoll_wait)
      (CoroutineState.system_call v call timeout)
calling s = none

unfoldable pub called : State → Option State
called (CoroutineState.system_call v call (SyscallState.calling by)) =
    goes_to call computing (CoroutineState.system_call v call (SyscallState.calling by))
called s = none

-- `wait_just`, on the coroutine's state.
unfoldable pub wait_state : Option ℕ → Wake → State → Option State
unfolding delayed calling called
wait_state until wake s = and_then (and_then (delayed until wake s) calling) called

goes_within :
    (call : Syscall) (new old : SyscallState)
    → goes_to call new (CoroutineState.system_call tt call old)
      ≡ some (CoroutineState.system_call tt call new)
goes_within call new old = ap expected (same_call call new old)

calls_out :
    (wake : Wake) (call : Syscall)
    → calling (CoroutineState.system_call tt call (woken_to wake))
      ≡ some (CoroutineState.system_call tt call (SyscallState.calling Syscall.epoll_wait))
unfolding calling
calls_out deadline call = goes_within call (SyscallState.calling Syscall.epoll_wait) timeout
calls_out event call = goes_within call (SyscallState.calling Syscall.epoll_wait) computing

comes_back :
    (call by : Syscall)
    → called (CoroutineState.system_call tt call (SyscallState.calling by))
      ≡ some (CoroutineState.system_call tt call computing)
unfolding called
comes_back call by = goes_within call computing (SyscallState.calling by)

delayed_within :
    (until : ℕ) (wake : Wake) (call : Syscall) (state : SyscallState)
    → delayed (some until) wake (CoroutineState.system_call tt call state)
      ≡ some (CoroutineState.system_call tt call (woken_to wake))
unfolding delayed
delayed_within until wake call state =
    ap (λ o. and_then o (goes_to call (woken_to wake)))
      (goes_within call (SyscallState.suspend until) state)
    ∙ goes_within call (woken_to wake) (SyscallState.suspend until)

-- Behind the delay.
ends_within :
    (wake : Wake) (call : Syscall)
    → and_then (calling (CoroutineState.system_call tt call (woken_to wake))) called
      ≡ some (CoroutineState.system_call tt call computing)
ends_within wake call =
    ap (λ o. and_then o called) (calls_out wake call) ∙ comes_back call Syscall.epoll_wait

-- A coroutine that waits within a system call, in whatever state of it, is within the same call and
-- computing when the wait ends, whether at its deadline or at an event; nothing panics.
pub wait_state_within :
    (until : ℕ) (wake : Wake) (call : Syscall) (state : SyscallState)
    → wait_state (some until) wake (CoroutineState.system_call tt call state)
      ≡ some (CoroutineState.system_call tt call computing)
unfolding wait_state
wait_state_within until wake call state =
    ap (λ o. and_then (and_then o calling) called) (delayed_within until wake call state)
    ∙ ends_within wake call

-- A coroutine that waits while it is running, with a timeout, is left within the call epoll_wait: in a
-- state in which it can neither be suspended nor complete nor return from the call.
pub wait_state-running :
    (until : ℕ) (wake : Wake) (v : Unit {0}) (ts : ℕ)
    → (s : State) × (wait_state (some until) wake CoroutineState.running ≡ some s)
      × (expected (suspend v ts s) ≡ none)
      × (expected (complete tt s) ≡ none)
      × (expected (syscall_resume s) ≡ none)
unfolding wait_state delayed suspend complete syscall_resume syscall
wait_state-running until wake v ts = (
  CoroutineState.system_call tt Syscall.epoll_wait computing,
  ends_within wake Syscall.epoll_wait,
  refl,
  refl,
  refl,
)

-- The waits of a call, one after the other.
unfoldable pub wait_states : List (ℕ × Wake) → State → Option State
unfolding wait_state
wait_states [] s = some s
wait_states ((until, wake) ∷ waits) s =
    and_then (wait_state (some until) wake s) (wait_states waits)

-- The operations on the coroutine that such waits within a call are.
unfoldable pub operations : Syscall → List (ℕ × Wake) → List (Operation (Unit {0}) (Unit {0}))
operations call [] = []
operations call ((until, wake) ∷ waits) =
    Operation.calls tt call (SyscallState.suspend until)
    ∷ Operation.calls tt call (woken_to wake)
    ∷ Operation.calls tt call (SyscallState.calling Syscall.epoll_wait)
    ∷ Operation.calls tt call computing
    ∷ operations call waits

step :
    (call : Syscall) (new old : SyscallState)
    → (apply {R = Unit {0}}
        (Operation.calls tt call new)
        (CoroutineState.system_call tt call old)).0
      ≡ CoroutineState.system_call tt call new
unfolding apply
step call new old = ap (λ c. c.0) (same_call call new old)

perform-operations :
    (call : Syscall) (waits : List (ℕ × Wake))
    → perform (operations call waits) (CoroutineState.system_call tt call computing)
      ≡ CoroutineState.system_call tt call computing
unfolding perform operations
perform-operations call [] = refl
perform-operations call ((until, wake) ∷ waits) =
    let back = Operation.calls tt call computing ∷ operations call waits in
    let out = Operation.calls tt call (SyscallState.calling Syscall.epoll_wait) ∷ back in
    ap (perform (Operation.calls tt call (woken_to wake) ∷ out))
      (step call (SyscallState.suspend until) computing)
    ∙ ap (perform out) (step call (woken_to wake) (SyscallState.suspend until))
    ∙ ap (perform back) (step call (SyscallState.calling Syscall.epoll_wait) (woken_to wake))
    ∙ ap (perform (operations call waits))
        (step call computing (SyscallState.calling Syscall.epoll_wait))
    ∙ perform-operations call waits

wait_states_within :
    (call : Syscall) (waits : List (ℕ × Wake))
    → wait_states waits (CoroutineState.system_call tt call computing)
      ≡ some (CoroutineState.system_call tt call computing)
unfolding wait_states
wait_states_within call [] = refl
wait_states_within call ((until, wake) ∷ waits) =
    ap (λ o. and_then o (wait_states waits)) (wait_state_within until wake call computing)
    ∙ wait_states_within call waits

-- A running coroutine that enters a system call, waits any number of times within it, each wait ended
-- by its deadline or by an event, and leaves it, is running again, and none of the waits panics,
-- whatever the other coroutines of the thread do to its stack of calls meanwhile. What it takes off
-- that stack in the end is the call on its top then, which need not be its own.
pub change_state-operations :
    (call : Syscall) (waits : List (ℕ × Wake)) (others : List Syscall → List Syscall)
    (stack : List Syscall)
    → (wait_states waits (CoroutineState.system_call tt call computing)
        ≡ some (perform (operations call waits) (CoroutineState.system_call tt call computing)))
      × (change_state call (operations call waits) others stack (some CoroutineState.running)
          ≡ some (clean_current (others (init_current call stack)), some CoroutineState.running))
change_state-operations call waits others stack = (
  wait_states_within call waits ∙ ap some (sym (perform-operations call waits)),
  change_state-running call (operations call waits) others stack computing
      (perform-operations call waits),
)
