-- ===== src/Coroutine/Balance.antt =====
-- What `resume_with` leaves behind: the thread-local stacks, and the coroutine's state.
use open_coroutine.Base.{ℕ, ◌≡◌, refl, List, [], ◌∷◌, Option, none, some, arith}
use open_coroutine.Coroutine.State.{Syscall, SyscallState, CoroutineState}
use open_coroutine.Coroutine.Machine.{Unexpected, unexpected, Operation, perform, running}
use open_coroutine.Coroutine.Resume.{
  Locals, Body, Coroutine, CoroutineResult, yields, returned, panicked, ok, refused, Resumed,
  resume_with, resume_by, resume_checked, run_on, yielded, settle, conclude, drop_front,
  front_or_zero, leave, init_suspender, clean_suspender, init_current,
}

module _ {Y R : Type 0} where
  -- The states in which a coroutine may leave a resumption.
  abbrev pub IsParked : CoroutineState Y R → Type 0
  IsParked CoroutineState.created = ⊥
  IsParked CoroutineState.ready = ⊥
  IsParked CoroutineState.running = ⊥
  IsParked _ = Unit {0}

  -- What a resumption that succeeds owes: the current coroutine is dropped, the suspenders are as
  -- they were, and the state reported is the coroutine's and one to leave in.
  pub record IsSettled (before : List ℕ) (suspenders : List ℕ) (name : ℕ) (r : Resumed Y R)
      (s : CoroutineState Y R) : Type 0 where
    pub coroutines_back : r.locals.coroutines ≡ before
    pub suspenders_back : r.locals.suspenders ≡ suspenders
    pub same_name : r.coroutine.name ≡ name
    pub state_reported : r.coroutine.state ≡ s
    pub parked : IsParked s

  conclude-IsSettled :
      (l : Locals) (name : ℕ) (rest : Body Y R) (s : CoroutineState Y R)
      (result : CoroutineResult Y R) (t : CoroutineState Y R)
      → (conclude l name rest s result).outcome ≡ ok t
      → IsSettled (drop_front l.coroutines) l.suspenders name (conclude l name rest s result) t
  unfolding conclude
  conclude-IsSettled l name rest s (yields y) t h = ground arith
  conclude-IsSettled l name rest s (returned r) t h = ground arith
  conclude-IsSettled l name rest s (panicked m) t h = ground arith

  run_on-IsSettled :
      (l : Locals) (name : ℕ) (body : Body Y R) (s t : CoroutineState Y R)
      → (run_on l name body s).outcome ≡ ok t
      → IsSettled (drop_front l.coroutines) l.suspenders name (run_on l name body s) t
  unfolding run_on
  run_on-IsSettled l name (Body.suspends_with os y rest) s t h =
      conclude-IsSettled (leave none (init_suspender name l)) name rest (perform os s) (yields y) t
        h
  run_on-IsSettled l name (Body.until_with os y ts rest) s t h =
      conclude-IsSettled (leave (some ts) (init_suspender name l)) name rest (perform os s)
        (yields y) t h
  run_on-IsSettled l name (Body.returns os r) s t h =
      conclude-IsSettled (clean_suspender (init_suspender name l)) name (Body.returns [] r)
        (perform os s) (returned r) t h
  run_on-IsSettled l name (Body.panics os m) s t h =
      conclude-IsSettled (clean_suspender (init_suspender name l)) name (Body.panics [] m)
        (perform os s) (panicked m) t h

  resume_checked-IsSettled :
      (l : Locals) (c : Coroutine Y R) (s : CoroutineState Y R × Option (Unexpected Y R))
      (t : CoroutineState Y R)
      → (resume_checked l c s).outcome ≡ ok t
      → IsSettled l.coroutines l.suspenders c.name (resume_checked l c s) t
  unfolding resume_checked
  resume_checked-IsSettled l c (s, some e) t h = cc
  resume_checked-IsSettled l c (s, none) t h =
      run_on-IsSettled (init_current c.name l) c.name c.inner s t h

  resume_by-IsSettled :
      (now : ℕ) (l : Locals) (c : Coroutine Y R) (s t : CoroutineState Y R)
      → c.state ≡ s
      → (resume_by now l c s).outcome ≡ ok t
      → IsSettled l.coroutines l.suspenders c.name (resume_by now l c s) t
  unfolding resume_by
  resume_by-IsSettled now l c (CoroutineState.complete r) t e h = ground arith
  resume_by-IsSettled now l c s t e h = resume_checked-IsSettled l c (running now s) t h

  -- A resumption that succeeds leaves the thread's stacks of coroutines and of suspenders as it
  -- found them, reports the state in which it leaves the coroutine, and leaves it suspended, in a
  -- system call, complete or failed.
  pub resume_with-IsSettled :
      (now : ℕ) (l : Locals) (c : Coroutine Y R) (t : CoroutineState Y R)
      → (resume_with now l c).outcome ≡ ok t
      → IsSettled l.coroutines l.suspenders c.name (resume_with now l c) t
  unfolding resume_with
  resume_with-IsSettled now l c t h = resume_by-IsSettled now l c c.state t refl h

  resume_with_ready :
      (now : ℕ) (l : Locals) (c : Coroutine Y R)
      → c.state ≡ CoroutineState.ready
      → resume_with now l c ≡ run_on (init_current c.name l) c.name c.inner CoroutineState.running
  unfolding resume_with
  resume_with_ready now l c e = rw (e, resume_by)

  -- Where a resumed coroutine was ready, and its function returns while the state
  -- is that of a system call, the resumption is refused and the coroutine stays on the stack of
  -- current coroutines.
  pub resume_with_in_call :
      (now : ℕ) (l : Locals) (c : Coroutine Y R) (os : List (Operation Y R)) (r : R) (v : Y)
      (call : Syscall) (st : SyscallState)
      → c.state ≡ CoroutineState.ready
      → c.inner ≡ Body.returns os r
      → perform os CoroutineState.running ≡ CoroutineState.system_call v call st
      → ((resume_with now l c).outcome
          ≡ refused (unexpected (CoroutineState.system_call v call st) (CoroutineState.complete r)))
        × ((resume_with now l c).locals.coroutines ≡ c.name ∷ l.coroutines)
  unfolding resume_with
  resume_with_in_call now l c os r v call st ready body within =
      rw (resume_with_ready now l c ready, body) (rw (within, settle) (refl, refl))

  -- A coroutine that was ready and yields by `until_with` while running is suspended until the
  -- timestamp given, and the thread's stack of timestamps is as it was.
  pub resume_with-until_with :
      (now : ℕ) (l : Locals) (c : Coroutine Y R) (os : List (Operation Y R)) (y : Y) (ts : ℕ)
      (rest : Body Y R)
      → c.state ≡ CoroutineState.ready
      → c.inner ≡ Body.until_with os y ts rest
      → perform os CoroutineState.running ≡ CoroutineState.running
      → ((resume_with now l c).outcome ≡ ok (CoroutineState.suspend y ts))
        × ((resume_with now l c).locals.timestamps ≡ l.timestamps)
  unfolding yielded run_on init_current
  resume_with-until_with now l c os y ts rest ready body still =
      rw (resume_with_ready now l c ready, body, run_on) (rw (still, yielded) (refl, refl))

  resume_with-suspends_with :
      (now : ℕ) (l : Locals) (c : Coroutine Y R) (os : List (Operation Y R)) (y : Y)
      (rest : Body Y R)
      → c.state ≡ CoroutineState.ready
      → c.inner ≡ Body.suspends_with os y rest
      → perform os CoroutineState.running ≡ CoroutineState.running
      → (resume_with now l c).outcome ≡ ok (CoroutineState.suspend y (front_or_zero l.timestamps))
  unfolding yielded run_on init_current
  resume_with-suspends_with now l c os y rest ready body still =
      rw (resume_with_ready now l c ready, body, run_on) (rw (still, yielded))

  left_over :
      (now : ℕ) (l : Locals) (c : Coroutine Y R) (os : List (Operation Y R)) (y v : Y) (ts : ℕ)
      (rest : Body Y R) (call : Syscall) (st : SyscallState)
      → c.state ≡ CoroutineState.ready
      → c.inner ≡ Body.until_with os y ts rest
      → perform os CoroutineState.running ≡ CoroutineState.system_call v call st
      → (resume_with now l c).locals.timestamps ≡ ts ∷ l.timestamps
  unfolding yielded run_on init_current
  left_over now l c os y v ts rest call st ready body within =
      rw (resume_with_ready now l c ready, body) (rw (within, yielded))

  -- A coroutine that yields by `until_with` while it is in a system call leaves its timestamp on the
  -- thread's stack; a coroutine that next yields by `suspend_with` while running is then suspended
  -- until that timestamp, and not until 0.
  pub stale_timestamp :
      (now now' : ℕ) (l : Locals) (c d : Coroutine Y R) (os os' : List (Operation Y R)) (y y' v : Y)
      (ts : ℕ) (rest rest' : Body Y R) (call : Syscall) (st : SyscallState)
      → c.state ≡ CoroutineState.ready
      → c.inner ≡ Body.until_with os y ts rest
      → perform os CoroutineState.running ≡ CoroutineState.system_call v call st
      → d.state ≡ CoroutineState.ready
      → d.inner ≡ Body.suspends_with os' y' rest'
      → perform os' CoroutineState.running ≡ CoroutineState.running
      → (resume_with now' (resume_with now l c).locals d).outcome
        ≡ ok (CoroutineState.suspend y' ts)
  unfolding resume_with
  stale_timestamp now now' l c d os os' y y' v ts rest rest' call st cr cb cw dr db dw =
      rw (resume_with-suspends_with now' (resume_with now l c).locals d os' y' rest' dr db dw)
        (rw (left_over now l c os y v ts rest call st cr cb cw))
