-- ===== src/Coroutine/Examples.antt =====
-- Tests of the coroutine's definitions, and its theorems at concrete inputs.
use open_coroutine.Base.{ℕ, ◌≡◌, refl, List, [], ◌∷◌, none, some}
use open_coroutine.Coroutine.Local.{get, empty}
use open_coroutine.Coroutine.Store.{Op, puts, writes, removes, acts, intends, get-acts}
use open_coroutine.Coroutine.State.{Syscall, SyscallState, CoroutineState}
use open_coroutine.Coroutine.Machine.{Operation, apply, perform}
use open_coroutine.Coroutine.Resume.{Locals, Body, Coroutine, ok, new, resume_with}
use open_coroutine.Coroutine.Balance.{IsSettled, resume_with-IsSettled}

abbrev State : Type 0
State = CoroutineState ℕ ℕ

abbrev computing_read : State
computing_read = CoroutineState.system_call 1 Syscall.read SyscallState.computing

abbrev finished_read : State
finished_read = CoroutineState.system_call 4 Syscall.read SyscallState.finished

abbrev finish_read : Operation ℕ ℕ
finish_read = Operation.calls 4 Syscall.read SyscallState.finished

abbrev finish_poll : Operation ℕ ℕ
finish_poll = Operation.calls 4 Syscall.poll SyscallState.finished

abbrev wake_then_finish : List (Operation ℕ ℕ)
wake_then_finish = Operation.resumes 8 ∷ Operation.completes 3 ∷ []

woken : perform wake_then_finish (CoroutineState.suspend 1 8) ≡ CoroutineState.complete 3
unfolding perform apply
woken = refl

abbrev resume_call : List (Operation ℕ ℕ)
resume_call = Operation.returns_from_call ∷ []

abbrev idle : Locals
idle = record { coroutines = 9 ∷ []; suspenders = 9 ∷ []; timestamps = [] }

-- Yields 2, then 4, then returns 6.
abbrev twice : Body ℕ ℕ
twice = Body.suspends_with [] 2 (Body.until_with [] 4 50 (Body.returns [] 6))

first_yield : (resume_with 10 idle (new 1 twice)).outcome ≡ ok (CoroutineState.suspend 2 0)
unfolding resume_with new perform
first_yield = refl

resume_with-IsSettled_example :
    IsSettled (9 ∷ []) (9 ∷ []) 1 (resume_with 10 idle (new 1 twice)) (CoroutineState.suspend 2 0)
unfolding resume_with new perform
resume_with-IsSettled_example =
    resume_with-IsSettled 10 idle (new 1 twice) (CoroutineState.suspend 2 0) refl

-- Enters nanosleep and waits there until 50.
abbrev sleeper : Coroutine ℕ ℕ
sleeper = record {
  name = 1;
  inner =
      Body.until_with (Operation.calls 0 Syscall.nanosleep (SyscallState.suspend 50) ∷ []) 0 50
        (Body.returns [] 6);
  state = CoroutineState.ready;
}

-- Yields at once.
abbrev polite : Coroutine ℕ ℕ
polite = record {
  name = 2;
  inner = Body.suspends_with [] 7 (Body.returns [] 8);
  state = CoroutineState.ready;
}

-- Returns within a system call.
abbrev careless : Coroutine ℕ ℕ
careless = record {
  name = 3;
  inner = Body.returns (Operation.calls 0 Syscall.read SyscallState.computing ∷ []) 6;
  state = CoroutineState.ready;
}

-- Waits until 50 outside any system call.
abbrev delayed : Coroutine ℕ ℕ
delayed = record {
  name = 4;
  inner = Body.until_with [] 0 50 (Body.returns [] 6);
  state = CoroutineState.ready;
}

abbrev some_ops : List (Op ℕ)
some_ops = puts 3 5 ∷ puts 4 6 ∷ writes 3 8 ∷ removes 4 ∷ puts 3 9 ∷ []

get-acts_example : get 3 (acts some_ops empty) ≡ intends some_ops (λ k. none) 3
get-acts_example = get-acts some_ops 3

last_one : intends some_ops (λ k. none) 3 ≡ some 9
last_one = refl
