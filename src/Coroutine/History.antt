-- ===== src/Coroutine/History.antt =====
-- What holds of a coroutine over any sequence of operations of its state machine.
use Prim.Native.String.{String}
use open_coroutine.Base.{ℕ, ◌<◌, ◌≡◌, refl, some, arith, List, [], ◌∷◌, All}
use open_coroutine.Coroutine.State.{Syscall, SyscallState, finished, timeout, CoroutineState}
use open_coroutine.Coroutine.Machine.{unexpected, Operation, apply, target, perform}

-- The state of a system call from which the coroutine may not go on.
abbrev pub IsPending : SyscallState → Type 0
IsPending finished = ⊥
IsPending timeout = ⊥
IsPending _ = Unit {0}

module _ {Y R : Type 0} where
  -- The coroutine has returned or failed.
  pub data IsFinal : CoroutineState Y R → Type 0 where
    returned : {r : R} → IsFinal (CoroutineState.complete r)
    failed : {m : String} → IsFinal (CoroutineState.error m)

  apply-IsFinal :
      {s : CoroutineState Y R} (o : Operation Y R)
      → IsFinal s
      → apply o s ≡ (s, some (unexpected s (target o)))
  unfolding apply target
  apply-IsFinal (Operation.readies now) returned = refl
  apply-IsFinal (Operation.resumes now) returned = refl
  apply-IsFinal (Operation.suspends v ts) returned = refl
  apply-IsFinal (Operation.calls v c st) returned = refl
  apply-IsFinal Operation.returns_from_call returned = refl
  apply-IsFinal (Operation.completes r) returned = refl
  apply-IsFinal (Operation.fails m) returned = refl
  apply-IsFinal (Operation.readies now) failed = refl
  apply-IsFinal (Operation.resumes now) failed = refl
  apply-IsFinal (Operation.suspends v ts) failed = refl
  apply-IsFinal (Operation.calls v c st) failed = refl
  apply-IsFinal Operation.returns_from_call failed = refl
  apply-IsFinal (Operation.completes r) failed = refl
  apply-IsFinal (Operation.fails m) failed = refl

  -- A coroutine that has returned or failed keeps that state under every sequence of operations,
  -- and refuses each of them.
  pub perform-IsFinal :
      {s : CoroutineState Y R} (os : List (Operation Y R)) (o : Operation Y R)
      → IsFinal s
      → (perform os s ≡ s) × (apply o (perform os s) ≡ (s, some (unexpected s (target o))))
  unfolding perform
  perform-IsFinal [] o f = (refl, apply-IsFinal o f)
  perform-IsFinal (x ∷ os) o f = rw (apply-IsFinal x f) (perform-IsFinal os o f)

  -- The operation reads the clock, if it does, before the time given.
  abbrev pub Before : ℕ → Operation Y R → Type 0
  Before t (Operation.readies now) = now < t
  Before t (Operation.resumes now) = now < t
  Before t _ = Unit {0}

  suspend_refuses :
      (v : Y) (ts : ℕ) (o : Operation Y R)
      → Before ts o
      → (apply o (CoroutineState.suspend v ts)).0 ≡ CoroutineState.suspend v ts
  unfolding apply
  suspend_refuses v ts (Operation.readies now) h = ground arith
  suspend_refuses v ts (Operation.resumes now) h = ground arith
  suspend_refuses v ts _ h = refl

  -- A coroutine that is suspended until a timestamp stays so under every sequence of operations
  -- that read the clock only before it.
  pub perform-suspend :
      (v : Y) (ts : ℕ) (os : List (Operation Y R))
      → All (Before ts) os
      → perform os (CoroutineState.suspend v ts) ≡ CoroutineState.suspend v ts
  unfolding perform
  perform-suspend v ts [] h = refl
  perform-suspend v ts (o ∷ os) h = rw (suspend_refuses v ts o h.0) (perform-suspend v ts os h.1)

  -- The operation does not end the system call: it is no change to Finished or Timeout.
  abbrev pub KeepsPending : Operation Y R → Type 0
  KeepsPending (Operation.calls _ _ st) = IsPending st
  KeepsPending _ = Unit {0}

  -- The coroutine is within the system call given, which has not ended.
  pub data InCall (c : Syscall) : CoroutineState Y R → Type 0 where
    in_call :
        (v : Y) (st : SyscallState) → IsPending st → InCall c (CoroutineState.system_call v c st)

  apply-InCall :
      {c : Syscall} {s : CoroutineState Y R} (o : Operation Y R)
      → InCall c s
      → KeepsPending o
      → InCall c (apply o s).0
  unfolding apply
  apply-InCall (Operation.readies now) (in_call v st p) k = in_call v st p
  apply-InCall (Operation.resumes now) (in_call v st p) k = in_call v st p
  apply-InCall (Operation.suspends w ts) (in_call v st p) k = in_call v st p
  apply-InCall {c} (Operation.calls w c' st') (in_call v st p) k = grind (arith, in_call)
  apply-InCall Operation.returns_from_call (in_call v SyscallState.computing p) k =
      in_call v SyscallState.computing p
  apply-InCall Operation.returns_from_call (in_call v (SyscallState.suspend ts) p) k =
      in_call v (SyscallState.suspend ts) p
  apply-InCall Operation.returns_from_call (in_call v (SyscallState.calling d) p) k =
      in_call v (SyscallState.calling d) p
  apply-InCall Operation.returns_from_call (in_call v timeout p) k = absurd p
  apply-InCall Operation.returns_from_call (in_call v finished p) k = absurd p
  apply-InCall (Operation.completes r) (in_call v st p) k = in_call v st p
  apply-InCall (Operation.fails m) (in_call v st p) k = in_call v st p

  -- A coroutine that is within a system call which has not ended stays within that call under every
  -- sequence of operations none of which sets the call to Finished or Timeout.
  pub perform-InCall :
      {c : Syscall} (os : List (Operation Y R)) {s : CoroutineState Y R}
      → InCall c s
      → All KeepsPending os
      → InCall c (perform os s)
  unfolding perform
  perform-InCall [] i k = i
  perform-InCall (o ∷ os) i k = perform-InCall os (apply-InCall o i k.0) k.1
