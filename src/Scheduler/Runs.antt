-- ===== src/Scheduler/Runs.antt =====
-- A coroutine that the scheduler keeps ready is one that may be resumed; an error behind that is the
-- doing of the coroutine's own function.
use open_coroutine.Base.{ℕ, ◌≤◌, ◌≡◌, refl, Option, none, some, arith}
use open_coroutine.Coroutine.State.{CoroutineState}
use open_coroutine.Coroutine.Machine.{Unexpected, unexpected, running}
use open_coroutine.Coroutine.Resume.{
  Locals, Body, Coroutine, CoroutineResult, yields, returned, panicked, Outcome, ok, refused,
  unexpected_state, init_current, resume_with, resume_by, resume_checked, run_on, resume_inner,
  yielded, conclude,
}

module _ {Y R : Type 0} where
  -- The states in which a coroutine may be resumed at a time.
  abbrev pub Runs : ℕ → CoroutineState Y R → Type 0
  Runs now CoroutineState.ready = Unit {0}
  Runs now (CoroutineState.suspend v ts) = ts ≤ now
  Runs now (CoroutineState.system_call v call st) = Unit {0}
  Runs now _ = ⊥

  -- A state change that is refused because the function ended while it was not running.
  abbrev pub IsOwn : Unexpected Y R → Type 0
  IsOwn (unexpected s (CoroutineState.complete r)) = Unit {0}
  IsOwn (unexpected s (CoroutineState.error m)) = Unit {0}
  IsOwn (unexpected s t) = ⊥

  abbrev pub IsOwnOutcome : Outcome Y R → Type 0
  IsOwnOutcome (ok t) = Unit {0}
  IsOwnOutcome (refused e) = IsOwn e
  IsOwnOutcome (unexpected_state t) = Unit {0}

  pub Runs-later :
      (now later : ℕ) (s : CoroutineState Y R) → now ≤ later → Runs now s → Runs later s
  Runs-later now later CoroutineState.ready le r = tt
  Runs-later now later (CoroutineState.suspend v ts) le r = omega arith
  Runs-later now later (CoroutineState.system_call v call st) le r = tt
  Runs-later now later CoroutineState.created le r = absurd r
  Runs-later now later CoroutineState.running le r = absurd r
  Runs-later now later (CoroutineState.complete x) le r = absurd r
  Runs-later now later (CoroutineState.error m) le r = absurd r

  Runs-running : (now : ℕ) (s : CoroutineState Y R) → Runs now s → (running now s).1 ≡ none
  unfolding running
  Runs-running now CoroutineState.ready r = refl
  Runs-running now (CoroutineState.suspend v ts) r = ground arith
  Runs-running now (CoroutineState.system_call v call st) r = refl
  Runs-running now CoroutineState.created r = absurd r
  Runs-running now CoroutineState.running r = absurd r
  Runs-running now (CoroutineState.complete x) r = absurd r
  Runs-running now (CoroutineState.error m) r = absurd r

  yielded-IsOwn :
      (l : Locals) (name : ℕ) (rest : Body Y R) (y : Y) (s : CoroutineState Y R)
      → IsOwnOutcome (yielded l name rest y s).outcome
  unfolding yielded
  yielded-IsOwn l name rest y CoroutineState.running = tt
  yielded-IsOwn l name rest y s = tt

  conclude-IsOwn :
      (l : Locals) (name : ℕ) (rest : Body Y R) (s : CoroutineState Y R)
      (result : CoroutineResult Y R)
      → IsOwnOutcome (conclude l name rest s result).outcome
  unfolding conclude
  conclude-IsOwn l name rest s (yields y) = yielded-IsOwn l name rest y s
  conclude-IsOwn l name rest CoroutineState.running (returned r) = tt
  conclude-IsOwn l name rest s (returned r) = tt
  conclude-IsOwn l name rest CoroutineState.running (panicked m) = tt
  conclude-IsOwn l name rest s (panicked m) = tt

  resume_checked-IsOwn :
      (l : Locals) (c : Coroutine Y R) (s : CoroutineState Y R × Option (Unexpected Y R))
      → s.1 ≡ none
      → IsOwnOutcome (resume_checked l c s).outcome
  unfolding resume_checked run_on
  resume_checked-IsOwn l c (s, some e) h = absurd (ground arith)
  resume_checked-IsOwn l c (s, none) h =
      let (l', rest, s', result) = resume_inner (init_current c.name l) c.name c.inner s in
      conclude-IsOwn l' c.name rest s' result

  -- A coroutine that may be resumed is: where that ends in an error, the coroutine's function ended or
  -- yielded in a state that does not fit.
  pub resume_with-IsOwn :
      (now : ℕ) (l : Locals) (c : Coroutine Y R)
      → Runs now c.state
      → IsOwnOutcome (resume_with now l c).outcome
  unfolding resume_with
  resume_with-IsOwn now l c r = by_state c.state r
    where
      by_state : (s : CoroutineState Y R) → Runs now s → IsOwnOutcome (resume_by now l c s).outcome
      by_state CoroutineState.ready r =
          resume_checked-IsOwn l c (running now CoroutineState.ready)
            (Runs-running now CoroutineState.ready r)
      by_state (CoroutineState.complete x) r = absurd r
      by_state s r = resume_checked-IsOwn l c (running now s) (Runs-running now s r)
