-- ===== src/Coroutine/Diagram.antt =====
-- The changes of state that the comments on `StateMachine` in open-coroutine-core/src/coroutine/mod.rs
-- document, and how the operations of the code keep to them.
use open_coroutine.Base.{◌<◌, ◌≡◌, ◌≢◌, ◌⊎◌, Bool, true, false, some, none, arith}
use open_coroutine.Coroutine.State.{CoroutineState}
use open_coroutine.Coroutine.Machine.{Unexpected, unexpected, Operation, apply, target}
use open_coroutine.Coroutine.History.{IsPending}

module _ {Y R : Type 0} where
  -- The comments, from `created -> ready` to `running -> error`: whether the operation is documented to
  -- change a state of this kind.
  unfoldable pub documented : Operation Y R → CoroutineState Y R → Bool
  documented (Operation.readies now) CoroutineState.created = true
  documented (Operation.readies now) (CoroutineState.system_call v c st) = true
  documented (Operation.readies now) (CoroutineState.suspend v ts) = true
  documented (Operation.resumes now) CoroutineState.created = true
  documented (Operation.resumes now) CoroutineState.ready = true
  documented (Operation.resumes now) (CoroutineState.suspend v ts) = true
  documented (Operation.suspends v ts) CoroutineState.running = true
  documented (Operation.calls v c st) CoroutineState.running = true
  documented (Operation.calls v c st) (CoroutineState.system_call w d old) = true
  documented Operation.returns_from_call (CoroutineState.system_call v c st) = true
  documented (Operation.completes r) CoroutineState.running = true
  documented (Operation.fails m) CoroutineState.running = true
  documented o s = false

  -- Why the code refuses a change that is documented: a suspension is not over, another system call is
  -- the current one, the system call has not ended, or a system call would become ready.
  abbrev pub IsWithheld : Operation Y R → CoroutineState Y R → Type 0
  IsWithheld (Operation.readies now) (CoroutineState.suspend v ts) = now < ts
  IsWithheld (Operation.readies now) (CoroutineState.system_call v c st) = Unit {0}
  IsWithheld (Operation.resumes now) (CoroutineState.suspend v ts) = now < ts
  IsWithheld (Operation.calls v c st) (CoroutineState.system_call w d old) = d ≢ c
  IsWithheld Operation.returns_from_call (CoroutineState.system_call v c st) = IsPending st
  IsWithheld o s = ⊥

  -- The one change that is not documented and not refused: a coroutine in a system call that is resumed
  -- stays in it.
  abbrev pub IsKept : Operation Y R → CoroutineState Y R → Type 0
  IsKept (Operation.resumes now) (CoroutineState.system_call v c st) = Unit {0}
  IsKept o s = ⊥

  -- What an operation does, against the comments: it makes a documented change; or it refuses one, with
  -- one of these reasons; or it lets the one undocumented change pass, in which the state stays; or it
  -- refuses what is not documented.
  abbrev pub Complies : Operation Y R → CoroutineState Y R → Type 0
  Complies o s =
      ((documented o s ≡ true) × (apply o s ≡ (target o, none)))
      ⊎ ((documented o s ≡ true)
          × IsWithheld o s
          × (apply o s ≡ (s, some (unexpected s (target o)))))
      ⊎ ((documented o s ≡ false) × IsKept o s × (apply o s ≡ (s, none)))
      ⊎ ((documented o s ≡ false) × (apply o s ≡ (s, some (unexpected s (target o)))))

  -- Where an operation reports an error, the state stays as it was, and the error names that state
  -- and the one that was to be reached.
  pub refused_unchanged :
      (o : Operation Y R) (s : CoroutineState Y R) (u : Unexpected Y R)
      → (apply o s).1 ≡ some u
      → ((apply o s).0 ≡ s) × (u ≡ unexpected s (target o))
  unfolding apply target
  refused_unchanged (Operation.readies now) s u h = ground arith
  refused_unchanged (Operation.resumes now) s u h = ground arith
  refused_unchanged (Operation.suspends v ts) s u h = ground arith
  refused_unchanged (Operation.calls v c st) s u h = ground arith
  refused_unchanged Operation.returns_from_call s u h = ground arith
  refused_unchanged (Operation.completes r) s u h = ground arith
  refused_unchanged (Operation.fails m) s u h = ground arith
