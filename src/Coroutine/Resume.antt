-- ===== src/Coroutine/Resume.antt =====
-- `CoroutineImpl` and its `resume_with` of open-coroutine-core/src/coroutine/korosensei.rs, with the
-- thread-local stacks of coroutine/mod.rs and coroutine/suspender.rs. What the user's function does
-- between two suspensions is a value of `Body`; the clock is read once, and its reading is an argument.
-- Names are numbers: they are only compared.
use Prim.Native.String.{String}
use open_coroutine.Base.{ℕ, List, [], ◌∷◌, Option, none, some}
use open_coroutine.Coroutine.State.{CoroutineState}
use open_coroutine.Coroutine.Machine.{
  Unexpected, Operation, perform, running, suspend, complete, error,
}

-- The `VecDeque`s COROUTINE, SUSPENDER and TIMESTAMP of one thread, the front first. A suspender is
-- named after its coroutine.
pub record Locals : Type 0 where
  pub coroutines : List ℕ
  pub suspenders : List ℕ
  pub timestamps : List ℕ

-- The rest of a coroutine's function: what it does to its own state, and how that part ends.
pub data Body (Y R : Type 0) : Type 0 where
  suspends_with : List (Operation Y R) → Y → Body Y R → Body Y R
  until_with : List (Operation Y R) → Y → ℕ → Body Y R → Body Y R
  returns : List (Operation Y R) → R → Body Y R
  panics : List (Operation Y R) → String → Body Y R

pub record Coroutine (Y R : Type 0) : Type 0 where
  pub name : ℕ
  pub inner : Body Y R
  pub state : CoroutineState Y R

-- `CoroutineImpl::new`: the stack's allocation is left out.
unfoldable pub new : {Y R : Type 0} → ℕ → Body Y R → Coroutine Y R
new name f = record { name = name; inner = f; state = CoroutineState.created }

-- `pop_front` of a `VecDeque`, its value dropped.
abbrev pub drop_front : List ℕ → List ℕ
drop_front [] = []
drop_front (x ∷ xs) = xs

-- `CoroutineImpl::init_current` and `clean_current`.
unfoldable pub init_current : ℕ → Locals → Locals
init_current name l = record l { coroutines = name ∷ l.coroutines }

unfoldable pub clean_current : Locals → Locals
clean_current l = record l { coroutines = drop_front l.coroutines }

-- `SuspenderImpl::init_current` and `clean_current`.
unfoldable pub init_suspender : ℕ → Locals → Locals
init_suspender name l = record l { suspenders = name ∷ l.suspenders }

unfoldable pub clean_suspender : Locals → Locals
clean_suspender l = record l { suspenders = drop_front l.suspenders }

-- `DelaySuspender::timestamp`.
abbrev pub front_or_zero : List ℕ → ℕ
front_or_zero [] = 0
front_or_zero (t ∷ ts) = t

unfoldable pub timestamp : Locals → Locals × ℕ
timestamp l = (record l { timestamps = drop_front l.timestamps }, front_or_zero l.timestamps)

-- `CoroutineResult`, the returned value being a `Result`.
pub data CoroutineResult (Y R : Type 0) : Type 0 where
  yields : Y → CoroutineResult Y R
  returned : R → CoroutineResult Y R
  panicked : String → CoroutineResult Y R

-- `io::Result<CoroutineState>` of `resume_with`: the error of a state change, or that of a yield in
-- a state that is not expected.
pub data Outcome (Y R : Type 0) : Type 0 where
  ok : CoroutineState Y R → Outcome Y R
  refused : Unexpected Y R → Outcome Y R
  unexpected_state : CoroutineState Y R → Outcome Y R

pub record Resumed (Y R : Type 0) : Type 0 where
  pub locals : Locals
  pub coroutine : Coroutine Y R
  pub outcome : Outcome Y R

-- `suspend_with` up to the switch of stacks, and `until_with` before it.
unfoldable pub leave : Option ℕ → Locals → Locals
unfolding clean_suspender
leave none l = clean_suspender l
leave (some t) l = clean_suspender (record l { timestamps = t ∷ l.timestamps })

module _ {Y R : Type 0} where
  -- `self.inner.resume(arg)`: the suspender is made current, at the start of the closure in `new` or
  -- behind the switch in `suspend_with`; the body runs on, and leaves by a yield or by its end.
  unfoldable pub resume_inner :
      Locals
      → ℕ
      → Body Y R
      → CoroutineState Y R
      → Locals × Body Y R × CoroutineState Y R × CoroutineResult Y R
  unfolding leave init_suspender clean_suspender
  resume_inner l name (Body.suspends_with os y rest) s =
      (leave none (init_suspender name l), rest, perform os s, yields y)
  resume_inner l name (Body.until_with os y t rest) s =
      (leave (some t) (init_suspender name l), rest, perform os s, yields y)
  resume_inner l name (Body.returns os r) s =
      (clean_suspender (init_suspender name l), Body.returns [] r, perform os s, returned r)
  resume_inner l name (Body.panics os m) s =
      (clean_suspender (init_suspender name l), Body.panics [] m, perform os s, panicked m)

  -- A `?` behind a state change: the rest of the function, which cleans up, is passed over.
  unfoldable pub settle :
      Locals → ℕ → Body Y R → CoroutineState Y R × Option (Unexpected Y R) → Resumed Y R
  unfolding clean_current
  settle l name rest (s, none) = record {
    locals = clean_current l;
    coroutine = record { name = name; inner = rest; state = s };
    outcome = ok s;
  }
  settle l name rest (s, some e) = record {
    locals = l;
    coroutine = record { name = name; inner = rest; state = s };
    outcome = refused e;
  }

  -- The match on a yield, by the coroutine's state.
  unfoldable pub yielded : Locals → ℕ → Body Y R → Y → CoroutineState Y R → Resumed Y R
  unfolding settle timestamp clean_current suspend
  yielded l name rest y CoroutineState.running =
      let (l', t) = timestamp l in settle l' name rest (suspend y t CoroutineState.running)
  yielded l name rest y (CoroutineState.system_call v c st) = record {
    locals = clean_current l;
    coroutine = record { name = name; inner = rest; state = CoroutineState.system_call v c st };
    outcome = ok (CoroutineState.system_call v c st);
  }
  yielded l name rest y s = record {
    locals = l;
    coroutine = record { name = name; inner = rest; state = s };
    outcome = unexpected_state s;
  }

  -- The match on the result of the resumption.
  unfoldable pub conclude :
      Locals → ℕ → Body Y R → CoroutineState Y R → CoroutineResult Y R → Resumed Y R
  unfolding yielded settle complete error
  conclude l name rest s (yields y) = yielded l name rest y s
  conclude l name rest s (returned r) = settle l name rest (complete r s)
  conclude l name rest s (panicked m) = settle l name rest (error m s)

  -- The resumption of the inner coroutine and what follows it.
  unfoldable pub run_on : Locals → ℕ → Body Y R → CoroutineState Y R → Resumed Y R
  unfolding conclude resume_inner
  run_on l name body s =
      let (l', rest, s', result) = resume_inner l name body s in conclude l' name rest s' result

  -- `resume_with` behind its first test, with the result of `self.running()`.
  unfoldable pub resume_checked :
      Locals → Coroutine Y R → CoroutineState Y R × Option (Unexpected Y R) → Resumed Y R
  unfolding run_on init_current
  resume_checked l c (s, some e) = record {
    locals = l;
    coroutine = record c { state = s };
    outcome = refused e;
  }
  resume_checked l c (s, none) = run_on (init_current c.name l) c.name c.inner s

  -- The test for a coroutine that is complete.
  unfoldable pub resume_by : ℕ → Locals → Coroutine Y R → CoroutineState Y R → Resumed Y R
  unfolding resume_checked running
  resume_by now l c (CoroutineState.complete r) = record {
    locals = l;
    coroutine = c;
    outcome = ok (CoroutineState.complete r);
  }
  resume_by now l c s = resume_checked l c (running now s)

  unfoldable pub resume_with : ℕ → Locals → Coroutine Y R → Resumed Y R
  unfolding resume_by
  resume_with now l c = resume_by now l c c.state
