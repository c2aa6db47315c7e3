-- ===== src/Scheduler/Parts.antt =====
-- A resumption takes a part off what the coroutine's function has still to run.
use Prim.Native.String.{String}
use open_coroutine.Base.{ℕ, suc, ◌≤◌, ◌<◌, ◌≡◌, [], Option, none, some, arith}
use open_coroutine.Coroutine.State.{CoroutineState}
use open_coroutine.Coroutine.Machine.{Unexpected, perform, running, complete, error}
use open_coroutine.Coroutine.Resume.{
  Locals, Body, Coroutine, Outcome, ok, refused, unexpected_state, Resumed, resume_with, resume_by,
  resume_checked, run_on, yielded, settle,
}
use open_coroutine.Coroutine.Resume

-- The parts of a function that are still to run.
abbrev pub parts : {Y R : Type 0} → Body Y R → ℕ
parts (Body.suspends_with os y rest) = suc (parts rest)
parts (Body.until_with os y t rest) = suc (parts rest)
parts (Body.returns os r) = 1
parts (Body.panics os m) = 1

-- The parts to run of a coroutine that was left in a state: none once it has ended.
abbrev pub parts_left : {Y R : Type 0} → CoroutineState Y R → Body Y R → ℕ
parts_left (CoroutineState.complete r) b = 0
parts_left (CoroutineState.error m) b = 0
parts_left _ b = parts b

module _ {Y R : Type 0} where
  pub parts_positive : (b : Body Y R) → 0 < parts b
  parts_positive (Body.suspends_with os y rest) = omega arith
  parts_positive (Body.until_with os y t rest) = omega arith
  parts_positive (Body.returns os r) = omega arith
  parts_positive (Body.panics os m) = omega arith

  yielded-parts :
      (l : Locals) (name : ℕ) (rest : Body Y R) (y : Y) (s t : CoroutineState Y R)
      → (yielded l name rest y s).outcome ≡ ok t
      → parts_left t (yielded l name rest y s).coroutine.inner ≤ parts rest
  unfolding yielded
  yielded-parts l name rest y s t h = ground arith

  returned-parts :
      (l : Locals) (name : ℕ) (b : Body Y R) (r : R) (s t : CoroutineState Y R)
      → (settle l name b (complete r s)).outcome ≡ ok t
      → parts_left t (settle l name b (complete r s)).coroutine.inner ≡ 0
  unfolding settle complete
  returned-parts l name b r s t h = ground arith

  panicked-parts :
      (l : Locals) (name : ℕ) (b : Body Y R) (m : String) (s t : CoroutineState Y R)
      → (settle l name b (error m s)).outcome ≡ ok t
      → parts_left t (settle l name b (error m s)).coroutine.inner ≡ 0
  unfolding settle error
  panicked-parts l name b m s t h = ground arith

  run_on-parts :
      (l : Locals) (name : ℕ) (b : Body Y R) (s t : CoroutineState Y R)
      → (run_on l name b s).outcome ≡ ok t
      → parts_left t (run_on l name b s).coroutine.inner < parts b
  unfolding run_on
  run_on-parts l name (Body.suspends_with os y rest) s t h = omega (
    arith,
    yielded-parts (Resume.leave none (Resume.init_suspender name l)) name rest y (perform os s) t h,
  )
  run_on-parts l name (Body.until_with os y ts rest) s t h = omega (
    arith,
    yielded-parts (Resume.leave (some ts) (Resume.init_suspender name l)) name rest y (perform os s)
        t h,
  )
  run_on-parts l name (Body.returns os r) s t h = omega (
    arith,
    returned-parts (Resume.clean_suspender (Resume.init_suspender name l)) name (Body.returns [] r)
        r (perform os s) t h,
  )
  run_on-parts l name (Body.panics os m) s t h = omega (
    arith,
    panicked-parts (Resume.clean_suspender (Resume.init_suspender name l)) name (Body.panics [] m) m
        (perform os s) t h,
  )

  -- A resumption that succeeds leaves fewer parts of the function to run.
  pub resume_with-parts :
      (now : ℕ) (l : Locals) (c : Coroutine Y R) (t : CoroutineState Y R)
      → (resume_with now l c).outcome ≡ ok t
      → parts_left t (resume_with now l c).coroutine.inner < parts c.inner
  unfolding resume_with resume_by
  resume_with-parts now l c t h = by_state c.state h
    where
      checked :
          (s : CoroutineState Y R × Option (Unexpected Y R))
          → (resume_checked l c s).outcome ≡ ok t
          → parts_left t (resume_checked l c s).coroutine.inner < parts c.inner
      checked (s, some e) k = absurd (ground arith)
      checked (s, none) k = run_on-parts (Resume.init_current c.name l) c.name c.inner s t k

      by_state :
          (s : CoroutineState Y R)
          → (resume_by now l c s).outcome ≡ ok t
          → parts_left t (resume_by now l c s).coroutine.inner < parts c.inner
      by_state (CoroutineState.complete r) k = ground (arith, parts_positive c.inner)
      by_state s k = checked (running now s) k
