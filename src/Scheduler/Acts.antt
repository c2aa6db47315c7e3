-- ===== src/Scheduler/Acts.antt =====
-- The operations of `Scheduler` in any order.
use mathlib.Core.Logic.{if_pos}
use open_coroutine.Base.{
  ℕ, ◌≤◌, ◌≡◌, refl, sym, ap, ◌∙◌, inl, inr, List, [], ◌∷◌, Option, none, some, some-injective,
  arith, Option-cases,
}
use open_coroutine.Coroutine.State.{
  CoroutineState, SyscallState, Syscall, Syscall-discrete, computing,
}
use open_coroutine.Coroutine.Machine.{syscall}
use open_coroutine.Coroutine.Resume.{Body}
use open_coroutine.Coroutine.Resume
use open_coroutine.Scheduler.Containers.{ReadyQueue, Table}
use open_coroutine.Scheduler.Defs.{
  SchedulableCoroutine, Scheduler, Done, fine, fails, Failure, State, submit, compute_again,
  try_resume, try_timeout_schedule,
}
use open_coroutine.Scheduler.Defs
use open_coroutine.Scheduler.Runs.{Runs}
use open_coroutine.Scheduler.Steps.{Done-cases}
use open_coroutine.Scheduler.Due.{IsCall}
use open_coroutine.Scheduler.Sound.{remove-AllCalls}
use open_coroutine.Scheduler.Whole.{IsWhole, Blameless}
use open_coroutine.Scheduler.Blameless.{try_timeout_schedule-Blameless}

-- A call of `submit`, with the name made and the function; of `try_resume`; or of
-- `try_timeout_schedule`, with the fuel of its loop.
pub data Act : Type 0 where
  submits : ℕ → Body (Unit {0}) (Unit {0}) → Act
  resumes : ℕ → Act
  schedules : ℕ → ℕ → Act

module _ (queue : ReadyQueue SchedulableCoroutine) (table : Table SchedulableCoroutine)
    (clock : ℕ → ℕ) where
  abbrev pub forget_value : {A : Type 0} → Done queue table A → Done queue table (Unit {0})
  forget_value (fine s a) = fine s tt
  forget_value (fails s e) = fails s e

  unfoldable pub act : Act → Scheduler queue table → Option (Done queue table (Unit {0}))
  unfolding submit try_resume try_timeout_schedule
  act (submits fresh f) s = some (submit queue table clock fresh f s)
  act (resumes co_name) s = some (try_resume queue table clock co_name s)
  act (schedules fuel timeout_time) s =
      elim (try_timeout_schedule queue table clock fuel timeout_time s) [
        | none ↦ none
        | some d ↦ some (forget_value d)
      ]

  -- The calls in their order, up to the first error; `none` where the fuel of a call runs out.
  unfoldable pub acts : List Act → Scheduler queue table → Option (Done queue table (Unit {0}))
  unfolding act
  acts [] s = some (fine s tt)
  acts (a ∷ rest) s = elim (act a s) [
    | none ↦ none
    | some d ↦ elim d [ fine s' x ↦ acts rest s' | fails s' e ↦ some (fails s' e) ]
  ]

  same_call :
      (call : Syscall) (st : SyscallState)
      → syscall {Y = Unit {0}} {R = Unit {0}} tt call computing
          (CoroutineState.system_call tt call st)
        ≡ (CoroutineState.system_call tt call computing, none)
  unfolding syscall
  same_call call st = rw (if_pos (Syscall-discrete call call) refl)

  computed_again :
      (s : State)
      → IsCall s
      → ((compute_again queue table clock s).1 ≡ none)
        × ((now : ℕ) → Runs now (compute_again queue table clock s).0)
  unfolding compute_again
  computed_again (CoroutineState.system_call v call st) c =
      (rw (same_call call st, compute_again) refl, λ now. rw (same_call call st) tt)
  computed_again CoroutineState.created c = absurd c
  computed_again CoroutineState.ready c = absurd c
  computed_again CoroutineState.running c = absurd c
  computed_again (CoroutineState.suspend v ts) c = absurd c
  computed_again (CoroutineState.complete r) c = absurd c
  computed_again (CoroutineState.error m) c = absurd c

  submit-Blameless :
      (fresh : ℕ) (f : Body (Unit {0}) (Unit {0})) (s : Scheduler queue table)
      → IsWhole queue table clock s
      → Blameless queue table clock (submit queue table clock fresh f s)
  unfolding submit
  submit-Blameless fresh f s w =
      let c = record (Resume.new fresh f) { state = CoroutineState.ready } in
      record {
        prepared = record {
          runnable =
              queue.push_all (λ d. Runs (clock s.reads) d.state) c s.ready tt w.prepared.runnable;
          waiting = w.prepared.waiting;
        };
        calls = w.calls;
        ordered = w.ordered;
      }

  try_resume_missing :
      (co_name : ℕ) (s : Scheduler queue table)
      → table.get co_name s.syscall ≡ none
      → try_resume queue table clock co_name s ≡ fine s tt
  unfolding try_resume
  try_resume_missing co_name s e = rw (e, try_resume)

  try_resume_there :
      (co_name : ℕ) (s : Scheduler queue table) (c : SchedulableCoroutine)
      → table.get co_name s.syscall ≡ some c
      → (compute_again queue table clock c.state).1 ≡ none
      → try_resume queue table clock co_name s
        ≡ fine
            (Defs.push_ready queue table clock
              (record c { state = (compute_again queue table clock c.state).0 })
              (record s { syscall = table.remove co_name s.syscall }))
            tt
  unfolding try_resume
  try_resume_there co_name s c e a = rw (e, try_resume) (rw a)

  try_resume-Blameless :
      (co_name : ℕ) (s : Scheduler queue table)
      → IsWhole queue table clock s
      → Blameless queue table clock (try_resume queue table clock co_name s)
  try_resume-Blameless co_name s w = elim (Option-cases (table.get co_name s.syscall)) [
    | inl missing ↦ rw (try_resume_missing co_name s missing) w
    | inr (c, there) ↦
        let (accepted, runs) = computed_again c.state (rw there at (w.calls co_name)) in
        rw (try_resume_there co_name s c there accepted) (record {
          prepared = record {
            runnable =
                queue.push_all (λ d. Runs (clock s.reads) d.state)
                  (record c { state = (compute_again queue table clock c.state).0 }) s.ready
                  (runs (clock s.reads)) w.prepared.runnable;
            waiting = w.prepared.waiting;
          };
          calls = remove-AllCalls queue table clock co_name s.syscall w.calls;
          ordered = w.ordered;
        })
  ]

  module _ (rises : (n m : ℕ) → n ≤ m → clock n ≤ clock m) where
    forgotten-Blameless :
        (d : Done queue table ℕ)
        → Blameless queue table clock d
        → Blameless queue table clock (forget_value d)
    forgotten-Blameless (fine s left) b = b
    forgotten-Blameless (fails s e) b = b

    out_of_fuel :
        (fuel timeout_time : ℕ) (s : Scheduler queue table)
        → try_timeout_schedule queue table clock fuel timeout_time s ≡ none
        → act (schedules fuel timeout_time) s ≡ none
    unfolding act
    out_of_fuel fuel timeout_time s e = rw (e, act)

    scheduled :
        (fuel timeout_time : ℕ) (s : Scheduler queue table) (d : Done queue table ℕ)
        → try_timeout_schedule queue table clock fuel timeout_time s ≡ some d
        → act (schedules fuel timeout_time) s ≡ some (forget_value d)
    unfolding act
    scheduled fuel timeout_time s d e = rw (e, act)

    moved :
        (d d' : Done queue table (Unit {0}))
        → d ≡ d'
        → Blameless queue table clock d
        → Blameless queue table clock d'
    moved d d' e b = rw e at b

    act-Blameless :
        (a : Act) (s : Scheduler queue table) (d : Done queue table (Unit {0}))
        → IsWhole queue table clock s
        → act a s ≡ some d
        → Blameless queue table clock d
    unfolding act
    act-Blameless (submits fresh f) s d w h =
        moved (submit queue table clock fresh f s) d (some-injective _ d h)
          (submit-Blameless fresh f s w)
    act-Blameless (resumes co_name) s d w h =
        moved (try_resume queue table clock co_name s) d (some-injective _ d h)
          (try_resume-Blameless co_name s w)
    act-Blameless (schedules fuel timeout_time) s d w h =
        elim (Option-cases (try_timeout_schedule queue table clock fuel timeout_time s)) [
          | inl e ↦ absurd (ground (arith, sym (out_of_fuel fuel timeout_time s e) ∙ h))
          | inr (d', e) ↦
              moved (forget_value d') d
                (some-injective _ d (sym (scheduled fuel timeout_time s d' e) ∙ h))
                (forgotten-Blameless d' (
                  try_timeout_schedule-Blameless queue table clock rises fuel timeout_time s d' w
                    e))
        ]

    acts-none :
        (a : Act) (rest : List Act) (s : Scheduler queue table)
        → act a s ≡ none
        → acts (a ∷ rest) s ≡ none
    unfolding acts
    acts-none a rest s e = rw (e, acts)

    acts-fine :
        (a : Act) (rest : List Act) (s s' : Scheduler queue table) (x : Unit {0})
        → act a s ≡ some (fine s' x)
        → acts (a ∷ rest) s ≡ acts rest s'
    unfolding acts
    acts-fine a rest s s' x e = rw (e, acts)

    acts-fails :
        (a : Act) (rest : List Act) (s s' : Scheduler queue table) (e : Failure)
        → act a s ≡ some (fails s' e)
        → acts (a ∷ rest) s ≡ some (fails s' e)
    unfolding acts
    acts-fails a rest s s' e h = rw (h, acts)

    -- If the clock never goes back and every coroutine is where its state belongs (the ready may be
    -- resumed, the suspended wait in the order of their entries and for the entry's time at the
    -- latest, those in the table are in system calls), then after any calls of `submit`, `try_resume`
    -- and `try_timeout_schedule` every coroutine is where its state belongs, or the last call ended in
    -- the error of a coroutine whose function ended or yielded in a state that does not fit: no state
    -- change of the scheduler's own is refused, and no branch that should not be reached is.
    pub acts-Blameless :
        (calls : List Act) (s : Scheduler queue table) (d : Done queue table (Unit {0}))
        → IsWhole queue table clock s
        → acts calls s ≡ some d
        → Blameless queue table clock d
    unfolding acts
    acts-Blameless [] s d w h = moved (fine s tt) d (some-injective _ d h) w
    acts-Blameless (a ∷ rest) s d w h = elim (Option-cases (act a s)) [
      | inl e ↦ absurd (ground (arith, sym (acts-none a rest s e) ∙ h))
      | inr (d', e) ↦
          let b = act-Blameless a s d' w e in
          elim (Done-cases queue table clock d') [
            | inl (s', x, k) ↦
                acts-Blameless rest s' d (rw k at b)
                  (sym (acts-fine a rest s s' x (e ∙ ap some k)) ∙ h)
            | inr (s', f, k) ↦
                moved d' d
                  (some-injective d' d
                    (ap some k ∙ sym (acts-fails a rest s s' f (e ∙ ap some k)) ∙ h))
                  b
          ]
    ]
