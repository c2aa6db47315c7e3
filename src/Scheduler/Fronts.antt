-- ===== src/Scheduler/Fronts.antt =====
-- The front of the thread's stack of schedulers through the steps of a round.
use open_coroutine.Base.{
  ℕ, zero, suc, ◌≡◌, refl, inl, inr, leb, List, [], ◌∷◌, Bool, true, false, arith, Option-cases,
  Bool-cases, List-cases,
}
use open_coroutine.Timer.Queue
use open_coroutine.Coroutine.State.{CoroutineState, SyscallState}
use open_coroutine.Coroutine.Machine.{ready}
use open_coroutine.Coroutine.Resume.{
  Outcome, ok, refused, unexpected_state, Resumed, resume_with, drop_front,
}
use open_coroutine.Scheduler.Containers.{ReadyQueue, Table}
use open_coroutine.Scheduler.Defs.{
  SchedulableCoroutine, Scheduler, Done, fine, fails, Failure, panic, change_failed, State, repeat,
  drain_ready, suspend_round, time_out, drain_names, syscall_round, going_on, check_ready, file,
  conclude, run_coroutine, Turn, again, stop, schedule_round, schedule_loop, try_timeout_schedule,
}
use open_coroutine.Scheduler.Defs
use open_coroutine.Scheduler.Steps.{
  drain_ready_accepted, drain_ready_refused, drain_names_missing, drain_names_accepted,
  drain_names_refused, suspend_round_empty, suspend_round_early, suspend_round_due,
  syscall_round_empty, syscall_round_early, syscall_round_due,
}
use native.Mathlib.Decide.{dec_lt}

module _ (queue : ReadyQueue SchedulableCoroutine) (table : Table SchedulableCoroutine)
    (clock : ℕ → ℕ) where
  -- The stack is as given where an operation succeeds, and without its front where it reports an
  -- error; nothing is said of a panic.
  abbrev pub Stacked : {A : Type 0} → List ℕ → Done queue table A → Type 0
  Stacked l (fine s a) = s.schedulers ≡ l
  Stacked l (fails s panic) = Unit {0}
  Stacked l (fails s e) = s.schedulers ≡ drop_front l

  pub moved :
      {A : Type 0} (l l' : List ℕ) (d : Done queue table A) → l ≡ l' → Stacked l d → Stacked l' d
  moved l l' d e k = rw e at k

  drain_ready-Stacked :
      (cs : List SchedulableCoroutine) (s : Scheduler queue table)
      → Stacked s.schedulers (drain_ready queue table clock cs s)
  unfolding drain_ready
  drain_ready-Stacked [] s = refl
  drain_ready-Stacked (c ∷ cs) s = elim (Option-cases (ready (clock s.reads) c.state).1) [
    | inl accepted ↦ rw (drain_ready_accepted queue table clock c cs s accepted) (
        drain_ready-Stacked cs (
          Defs.push_ready queue table clock (record c { state = (ready (clock s.reads) c.state).0 })
            (Defs.tick_for queue table clock c.state s)))
    | inr (e, against) ↦ rw (drain_ready_refused queue table clock c cs s e against) refl
  ]

  broken :
      (s : Scheduler queue table) (u : Failure)
      → Stacked {A = Unit {0}} s.schedulers
          (fails (elim u [ panic ↦ s | _ ↦ Defs.clean_current queue table clock s ]) u)
  broken s panic = tt
  broken s u = refl

  drain_names-Stacked :
      (ks : List ℕ) (s : Scheduler queue table)
      → Stacked s.schedulers (drain_names queue table clock ks s)
  unfolding drain_names
  drain_names-Stacked [] s = refl
  drain_names-Stacked (k ∷ ks) s = elim (Option-cases (table.get k s.syscall)) [
    | inl missing ↦
        rw (drain_names_missing queue table clock k ks s missing) (drain_names-Stacked ks s)
    | inr (c, there) ↦ elim (Option-cases (time_out queue table clock c.state).1) [
      | inl accepted ↦ rw (drain_names_accepted queue table clock k ks s c there accepted) (
          drain_names-Stacked ks (
            Defs.push_ready queue table clock
              (record c { state = (time_out queue table clock c.state).0 })
              (record s { syscall = table.remove k s.syscall })))
      | inr (u, against) ↦
          rw (drain_names_refused queue table clock k ks s c u there against)
            (broken (record s { syscall = table.remove k s.syscall }) u)
    ]
  ]

  going_on-Stacked :
      (l : List ℕ) (d : Done queue table (Unit {0}))
      → Stacked l d
      → Stacked l (going_on queue table clock d)
  going_on-Stacked l (fine s _) p = p
  going_on-Stacked l (fails s panic) p = p
  going_on-Stacked l (fails s e) p = p

  suspend_round-Stacked :
      (s : Scheduler queue table) → Stacked s.schedulers (suspend_round queue table clock s)
  suspend_round-Stacked s = elim (List-cases s.suspend) [
    | inl empty ↦ rw (suspend_round_empty queue table clock s empty) refl
    | inr ((k, entry), l, e) ↦ elim (dec_lt (clock s.reads) k) [
      | yes early ↦ rw (suspend_round_early queue table clock s k entry l e early) refl
      | no due ↦ rw (suspend_round_due queue table clock s k entry l e (omega arith)) (
          going_on-Stacked s.schedulers _ (
            drain_ready-Stacked entry.inner
              (record (Defs.tick queue table clock s) { suspend = l })))
    ]
  ]

  syscall_round-Stacked :
      (s : Scheduler queue table) → Stacked s.schedulers (syscall_round queue table clock s)
  syscall_round-Stacked s = elim (List-cases s.syscall_suspend) [
    | inl empty ↦ rw (syscall_round_empty queue table clock s empty) refl
    | inr ((k, entry), l, e) ↦ elim (dec_lt (clock s.reads) k) [
      | yes early ↦ rw (syscall_round_early queue table clock s k entry l e early) refl
      | no due ↦ rw (syscall_round_due queue table clock s k entry l e (omega arith)) (
          going_on-Stacked s.schedulers _ (
            drain_names-Stacked entry.inner
              (record (Defs.tick queue table clock s) { syscall_suspend = l })))
    ]
  ]

  -- What follows a success, with the stack it is given.
  then-Stacked :
      {A B : Type 0} (l : List ℕ) (d : Done queue table A)
      (next : Scheduler queue table → A → Done queue table B)
      → Stacked l d
      → ((s : Scheduler queue table) (a : A) → s.schedulers ≡ l → Stacked l (next s a))
      → Stacked l
          (elim d as (λ _. Done queue table B) [ fine s a ↦ next s a | fails s e ↦ fails s e ])
  then-Stacked l (fine s a) next k n = n s a k
  then-Stacked l (fails s panic) next k n = tt
  then-Stacked l (fails s e) next k n = k

  repeat-Stacked :
      (n : ℕ) (round : Scheduler queue table → Done queue table Bool)
      → ((s : Scheduler queue table) → Stacked s.schedulers (round s))
      → (s : Scheduler queue table) → Stacked s.schedulers (repeat queue table clock n round s)
  unfolding repeat
  repeat-Stacked zero round keep s = refl
  repeat-Stacked (suc n) round keep s =
      then-Stacked s.schedulers (round s)
        (λ t go_on. elim go_on [ true ↦ repeat queue table clock n round t | false ↦ fine t tt ])
        (keep s) (λ t b e. go t b e (repeat-Stacked n round keep t))
    where
      go :
          (t : Scheduler queue table) (b : Bool)
          → t.schedulers ≡ s.schedulers
          → Stacked t.schedulers (repeat queue table clock n round t)
          → Stacked s.schedulers (elim b as (λ _. Done queue table (Unit {0})) [
            | true ↦ repeat queue table clock n round t
            | false ↦ fine t tt
          ])
      go t true e k = moved t.schedulers s.schedulers _ e k
      go t false e k = e

  pub check_ready-Stacked :
      (s : Scheduler queue table) → Stacked s.schedulers (check_ready queue table clock s)
  unfolding check_ready
  check_ready-Stacked s =
      then-Stacked s.schedulers
        (repeat queue table clock (Queue.entry_len s.suspend) (suspend_round queue table clock) s)
        (λ t u.
          repeat queue table clock (Queue.entry_len t.syscall_suspend)
            (syscall_round queue table clock) t)
        (repeat-Stacked (Queue.entry_len s.suspend) (suspend_round queue table clock)
          suspend_round-Stacked s)
        (λ t u e. moved t.schedulers s.schedulers _ e (
          repeat-Stacked (Queue.entry_len t.syscall_suspend) (syscall_round queue table clock)
            syscall_round-Stacked t))

  file-Stacked :
      (timeout_time : ℕ) (c : SchedulableCoroutine) (t : State) (s : Scheduler queue table)
      → Stacked s.schedulers (file queue table clock timeout_time c t s)
  unfolding file
  file-Stacked timeout_time c (CoroutineState.suspend v ts) s =
      elim (Bool-cases (leb ts (clock s.reads))) [
        | inl due ↦ rw due refl
        | inr waits ↦ rw waits refl
      ]
  file-Stacked timeout_time c (CoroutineState.system_call v call (SyscallState.suspend ts)) s = refl
  file-Stacked timeout_time c (CoroutineState.system_call v call st) s = refl
  file-Stacked timeout_time c (CoroutineState.complete r) s = refl
  file-Stacked timeout_time c (CoroutineState.error m) s = refl
  file-Stacked timeout_time c t s = refl

  conclude-Stacked :
      (timeout_time : ℕ) (r : Resumed (Unit {0}) (Unit {0})) (d : Outcome (Unit {0}) (Unit {0}))
      (s : Scheduler queue table)
      → Stacked s.schedulers (conclude queue table clock timeout_time r d s)
  unfolding conclude
  conclude-Stacked timeout_time r (ok t) s = file-Stacked timeout_time r.coroutine t s
  conclude-Stacked timeout_time r (refused e) s = refl
  conclude-Stacked timeout_time r (unexpected_state t) s = refl

  pub run_coroutine-Stacked :
      (timeout_time : ℕ) (c : SchedulableCoroutine) (s : Scheduler queue table)
      → Stacked s.schedulers (run_coroutine queue table clock timeout_time c s)
  unfolding run_coroutine
  run_coroutine-Stacked timeout_time c s =
      let r = resume_with (clock s.reads) s.locals c in
      conclude-Stacked timeout_time r r.outcome
        (record (Defs.notify queue table clock (Defs.on_resume timeout_time c.name)
          (Defs.tick_for queue table clock c.state s)) { locals = r.locals })
