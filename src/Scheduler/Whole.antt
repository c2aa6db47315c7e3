-- ===== src/Scheduler/Whole.antt =====
-- A whole scheduler keeps every coroutine where its state belongs, and remains whole when it runs one.
use mathlib.Core.Path.{subst}
use open_coroutine.Base.{
  ℕ, suc, ◌+◌, ◌≤◌, ◌≡◌, refl, sym, inl, inr, ◌==◌, leb, arith, Bool-cases, leb→le,
}
use open_coroutine.Timer.Queue.{TimerList}
use open_coroutine.Timer.Order.{IsOrdered, insert-schedule}
use open_coroutine.Coroutine.State.{CoroutineState, SyscallState}
use open_coroutine.Coroutine.Resume.{Outcome, ok, refused, unexpected_state, Resumed, resume_with}
use open_coroutine.Coroutine.Balance.{IsParked, resume_with-IsSettled}
use open_coroutine.Scheduler.Containers.{ReadyQueue, Table}
use open_coroutine.Scheduler.Defs.{
  SchedulableCoroutine, Scheduler, Done, fine, fails, Failure, panic, change_failed, resumed_in,
  never_here, State, check_ready, file, conclude, run_coroutine, Turn, again, stop, schedule_round,
  schedule_loop, try_timeout_schedule,
}
use open_coroutine.Scheduler.Defs
use open_coroutine.Scheduler.Loops.{Succeeding}
use open_coroutine.Scheduler.Kept.{Keeps}
use open_coroutine.Scheduler.Held.{check_ready-Keeps}
use open_coroutine.Scheduler.Runs.{Runs, IsOwn, IsOwnOutcome, resume_with-IsOwn}
use open_coroutine.Scheduler.Due.{Waits, IsCall, Fine}
use open_coroutine.Scheduler.Sound.{AllCalls, check_ready-Fine}
use open_coroutine.Scheduler.Prepared
use open_coroutine.Scheduler.Prepared.{IsPrepared, reads_later, check_ready-IsPrepared}
use open_coroutine.Scheduler.Waiting.{insert-AllWait}

-- The errors that are not the scheduler's own.
abbrev pub IsOwnFailure : Failure → Type 0
IsOwnFailure (change_failed u) = IsOwn u
IsOwnFailure (resumed_in t) = Unit {0}
IsOwnFailure (never_here t) = ⊥
IsOwnFailure panic = ⊥

module _ (queue : ReadyQueue SchedulableCoroutine) (table : Table SchedulableCoroutine)
    (clock : ℕ → ℕ) where
  -- Every coroutine is where its state belongs.
  pub record IsWhole (s : Scheduler queue table) : Type 0 where
    pub prepared : IsPrepared queue table clock s
    pub calls : AllCalls queue table clock s.syscall
    pub ordered : IsOrdered s.suspend

  -- A result: the scheduler is whole, or a coroutine's own function is to blame.
  abbrev pub Blameless : {A : Type 0} → Done queue table A → Type 0
  Blameless (fine s a) = IsWhole s
  Blameless (fails s e) = IsOwnFailure e

  module _ (rises : (n m : ℕ) → n ≤ m → clock n ≤ clock m) where
    pub tick-IsWhole :
        (s : Scheduler queue table) → IsWhole s → IsWhole (Defs.tick queue table clock s)
    tick-IsWhole s w = record {
      prepared = Prepared.tick-IsPrepared queue table clock rises s w.prepared;
      calls = w.calls;
      ordered = w.ordered;
    }

    both :
        (d : Done queue table (Unit {0})) (ts : TimerList SchedulableCoroutine)
        (s : Scheduler queue table)
        → Fine queue table clock (λ t. AllCalls queue table clock t.syscall) d
        → Succeeding queue table clock (IsPrepared queue table clock) d
        → Succeeding queue table clock (Keeps queue table clock (λ name b. 0) 0 s) d
        → Fine queue table clock IsWhole d
    both (fine t x) ts s calls prepared kept = record {
      prepared = prepared;
      calls = calls;
      ordered = kept.ordered;
    }
    both (fails t e) ts s calls prepared kept = absurd calls

    -- On a whole scheduler `check_ready` succeeds and leaves a whole one.
    pub check_ready-IsWhole :
        (s : Scheduler queue table)
        → IsWhole s
        → Fine queue table clock IsWhole (check_ready queue table clock s)
    check_ready-IsWhole s w =
        both (check_ready queue table clock s) s.suspend s
          (check_ready-Fine queue table clock rises s w.prepared.waiting w.calls)
          (check_ready-IsPrepared queue table clock rises s w.prepared)
          (check_ready-Keeps queue table clock (λ name b. 0) s w.ordered)

    insert-AllCalls :
        (c : SchedulableCoroutine) (m : table.Map)
        → IsCall c.state
        → AllCalls queue table clock m
        → AllCalls queue table clock (table.insert c.name c m)
    insert-AllCalls c m call calls k =
        rw (table.get-insert c.name k c m)
          (elim (Bool-cases (c.name == k)) [ inl e ↦ rw e call | inr e ↦ rw e (calls k) ])

    file-Blameless :
        (timeout_time : ℕ) (c : SchedulableCoroutine) (t : State) (s : Scheduler queue table)
        → c.state ≡ t
        → IsParked t
        → IsWhole s
        → Blameless (file queue table clock timeout_time c t s)
    unfolding file
    file-Blameless timeout_time c (CoroutineState.suspend v ts) s e parked w =
        let ticked = tick-IsWhole s w in
        elim (Bool-cases (leb ts (clock s.reads))) [
          | inl due ↦
              let late : ts ≤ clock (suc s.reads) =
                omega (arith, leb→le _ _ due, rises s.reads (suc s.reads) (omega arith)) in
              rw due (record {
                prepared = record {
                  runnable =
                      queue.push_all (λ d. Runs (clock (suc s.reads)) d.state) c s.ready
                        (subst (Runs (clock (suc s.reads))) (sym e) late) ticked.prepared.runnable;
                  waiting = ticked.prepared.waiting;
                };
                calls = w.calls;
                ordered = w.ordered;
              })
          | inr waits ↦
              let there : Waits ts c.state = subst (Waits ts) (sym e) (omega arith) in
              rw waits (record {
                prepared = record {
                  runnable = ticked.prepared.runnable;
                  waiting = insert-AllWait ts c s.suspend w.ordered there ticked.prepared.waiting;
                };
                calls = w.calls;
                ordered = (insert-schedule ts c s.suspend w.ordered).1;
              })
        ]
    file-Blameless timeout_time c (CoroutineState.system_call v call (SyscallState.suspend ts)) s e
          parked w =
        record {
          prepared = record { runnable = w.prepared.runnable; waiting = w.prepared.waiting };
          calls = insert-AllCalls c s.syscall (subst IsCall (sym e) tt) w.calls;
          ordered = w.ordered;
        }
    file-Blameless timeout_time c (CoroutineState.system_call v call st) s e parked w = record {
      prepared = record { runnable = w.prepared.runnable; waiting = w.prepared.waiting };
      calls = insert-AllCalls c s.syscall (subst IsCall (sym e) tt) w.calls;
      ordered = w.ordered;
    }
    file-Blameless timeout_time c (CoroutineState.complete r) s e parked w = record {
      prepared = record { runnable = w.prepared.runnable; waiting = w.prepared.waiting };
      calls = w.calls;
      ordered = w.ordered;
    }
    file-Blameless timeout_time c (CoroutineState.error m) s e parked w = record {
      prepared = record { runnable = w.prepared.runnable; waiting = w.prepared.waiting };
      calls = w.calls;
      ordered = w.ordered;
    }
    file-Blameless timeout_time c t s e parked w = absurd parked

    conclude-Blameless :
        (timeout_time : ℕ) (r : Resumed (Unit {0}) (Unit {0})) (s : Scheduler queue table)
        (o : Outcome (Unit {0}) (Unit {0}))
        → ((t : State) → o ≡ ok t → (r.coroutine.state ≡ t) × IsParked t)
        → IsOwnOutcome o
        → IsWhole s
        → Blameless (conclude queue table clock timeout_time r o s)
    unfolding conclude
    conclude-Blameless timeout_time r s (ok t) settled own w =
        let (reported, parked) = settled t refl in
        file-Blameless timeout_time r.coroutine t s reported parked w
    conclude-Blameless timeout_time r s (refused e) settled own w = own
    conclude-Blameless timeout_time r s (unexpected_state t) settled own w = tt

    pub run_coroutine-Blameless :
        (timeout_time : ℕ) (c : SchedulableCoroutine) (s : Scheduler queue table)
        → Runs (clock s.reads) c.state
        → IsWhole s
        → Blameless (run_coroutine queue table clock timeout_time c s)
    unfolding run_coroutine
    run_coroutine-Blameless timeout_time c s runs w =
        let r = resume_with (clock s.reads) s.locals c in
        conclude-Blameless timeout_time r
          (record (Defs.notify queue table clock (Defs.on_resume timeout_time c.name)
            (Defs.tick_for queue table clock c.state s)) { locals = r.locals })
          r.outcome
          (λ t e.
            let settled = resume_with-IsSettled (clock s.reads) s.locals c t e in
            (settled.state_reported, settled.parked))
          (resume_with-IsOwn (clock s.reads) s.locals c runs)
          (record {
            prepared = record {
              runnable =
                  reads_later queue table clock rises s.reads (s.reads + Defs.reads_of c.state)
                    (queue.contents s.ready) (omega arith) w.prepared.runnable;
              waiting = w.prepared.waiting;
            };
            calls = w.calls;
            ordered = w.ordered;
          })
