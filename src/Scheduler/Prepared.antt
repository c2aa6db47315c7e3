-- ===== src/Scheduler/Prepared.antt =====
-- The coroutines that `check_ready` leaves ready may be resumed.
use open_coroutine.Base.{
  ℕ, ◌+◌, ◌≤◌, ◌≡◌, refl, inl, inr, List, [], ◌∷◌, none, arith, All, All-mono, suc, Option-cases,
  List-cases,
}
use open_coroutine.Coroutine.State.{CoroutineState, SyscallState}
use open_coroutine.Coroutine.Machine.{ready, syscall}
use open_coroutine.Scheduler.Containers.{ReadyQueue, Table}
use open_coroutine.Scheduler.Defs.{
  SchedulableCoroutine, Scheduler, Done, fine, fails, State, reads_of, drain_ready, suspend_round,
  time_out, drain_names, syscall_round, check_ready,
}
use open_coroutine.Scheduler.Defs
use open_coroutine.Scheduler.Steps.{
  drain_ready_accepted, drain_ready_refused, drain_names_missing, drain_names_accepted,
  drain_names_refused, suspend_round_empty, suspend_round_early, suspend_round_due,
  syscall_round_empty, syscall_round_early, syscall_round_due,
}
use open_coroutine.Scheduler.Loops.{Succeeding, going_on-Succeeding, check_ready-Succeeding}
use open_coroutine.Scheduler.Runs.{Runs, Runs-later}
use open_coroutine.Scheduler.Due.{AllWait}
use native.Mathlib.Decide.{dec_lt}

readied : (now : ℕ) (s : State) → (ready now s).1 ≡ none → (ready now s).0 ≡ CoroutineState.ready
unfolding ready
readied now (CoroutineState.suspend v ts) e = ground arith
readied now CoroutineState.created e = refl
readied now s e = absurd (ground arith)

module _ (queue : ReadyQueue SchedulableCoroutine) (table : Table SchedulableCoroutine)
    (clock : ℕ → ℕ) where
  timed_out_Runs :
      (now : ℕ) (s : State)
      → (time_out queue table clock s).1 ≡ none
      → Runs now (time_out queue table clock s).0
  unfolding time_out syscall
  timed_out_Runs now (CoroutineState.system_call v call (SyscallState.suspend ts)) e = ground arith
  timed_out_Runs now (CoroutineState.system_call v call st) e = tt
  timed_out_Runs now s e = absurd (ground arith)

  -- Every ready coroutine may be resumed, and the suspended wait for their entries' times.
  pub record IsPrepared (s : Scheduler queue table) : Type 0 where
    pub runnable : All (λ c. Runs (clock s.reads) c.state) (queue.contents s.ready)
    pub waiting : AllWait s.suspend

  module _ (rises : (n m : ℕ) → n ≤ m → clock n ≤ clock m) where
    pub reads_later :
        (n m : ℕ) (cs : List SchedulableCoroutine)
        → n ≤ m
        → All (λ c. Runs (clock n) c.state) cs
        → All (λ c. Runs (clock m) c.state) cs
    reads_later n m cs le a =
        All-mono (λ c. Runs (clock n) c.state) (λ c. Runs (clock m) c.state)
          (λ c r. Runs-later (clock n) (clock m) c.state (rises n m le) r) cs a

    pushed-IsPrepared :
        (c : SchedulableCoroutine) (n : ℕ) (s : Scheduler queue table)
        → Runs (clock (s.reads + n)) c.state
        → IsPrepared s
        → IsPrepared (Defs.push_ready queue table clock c (record s { reads = s.reads + n }))
    pushed-IsPrepared c n s r p = record {
      runnable =
          queue.push_all (λ d. Runs (clock (s.reads + n)) d.state) c s.ready r
            (reads_later s.reads (s.reads + n) (queue.contents s.ready) (omega arith) p.runnable);
      waiting = p.waiting;
    }

    drain_ready-IsPrepared :
        (cs : List SchedulableCoroutine) (s : Scheduler queue table)
        → IsPrepared s
        → Succeeding queue table clock IsPrepared (drain_ready queue table clock cs s)
    unfolding drain_ready
    drain_ready-IsPrepared [] s p = p
    drain_ready-IsPrepared (c ∷ cs) s p = elim (Option-cases (ready (clock s.reads) c.state).1) [
      | inl accepted ↦
          let now_ready = record c { state = (ready (clock s.reads) c.state).0 } in
          let runs : Runs (clock (s.reads + reads_of c.state)) now_ready.state =
            rw (readied (clock s.reads) c.state accepted) tt in
          rw (drain_ready_accepted queue table clock c cs s accepted) (
            drain_ready-IsPrepared cs
              (Defs.push_ready queue table clock now_ready
                (Defs.tick_for queue table clock c.state s))
              (pushed-IsPrepared now_ready (reads_of c.state) s runs p))
      | inr (u, refused) ↦ rw (drain_ready_refused queue table clock c cs s u refused) tt
    ]

    drain_names-IsPrepared :
        (ks : List ℕ) (s : Scheduler queue table)
        → IsPrepared s
        → Succeeding queue table clock IsPrepared (drain_names queue table clock ks s)
    unfolding drain_names
    drain_names-IsPrepared [] s p = p
    drain_names-IsPrepared (k ∷ ks) s p = elim (Option-cases (table.get k s.syscall)) [
      | inl missing ↦
          rw (drain_names_missing queue table clock k ks s missing) (drain_names-IsPrepared ks s p)
      | inr (c, there) ↦ elim (Option-cases (time_out queue table clock c.state).1) [
        | inl accepted ↦
            let late = record c { state = (time_out queue table clock c.state).0 } in
            let left = record s { syscall = table.remove k s.syscall } in
            rw (drain_names_accepted queue table clock k ks s c there accepted) (
              drain_names-IsPrepared ks (Defs.push_ready queue table clock late left) (record {
                runnable =
                    queue.push_all (λ d. Runs (clock s.reads) d.state) late s.ready
                      (timed_out_Runs (clock s.reads) c.state accepted) p.runnable;
                waiting = p.waiting;
              }))
        | inr (u, refused) ↦ rw (drain_names_refused queue table clock k ks s c u there refused) tt
      ]
    ]

    pub tick-IsPrepared :
        (s : Scheduler queue table) → IsPrepared s → IsPrepared (Defs.tick queue table clock s)
    tick-IsPrepared s p = record {
      runnable =
          reads_later s.reads (suc s.reads) (queue.contents s.ready) (omega arith) p.runnable;
      waiting = p.waiting;
    }

    suspend_round-IsPrepared :
        (s : Scheduler queue table)
        → IsPrepared s
        → Succeeding queue table clock IsPrepared (suspend_round queue table clock s)
    suspend_round-IsPrepared s p = elim (List-cases s.suspend) [
      | inl empty ↦ rw (suspend_round_empty queue table clock s empty) p
      | inr ((k, entry), l, e) ↦ elim (dec_lt (clock s.reads) k) [
        | yes early ↦
            rw (suspend_round_early queue table clock s k entry l e early) (tick-IsPrepared s p)
        | no due ↦
            let there : AllWait ((k, entry) ∷ l) = rw e at (p.waiting) in
            rw (suspend_round_due queue table clock s k entry l e (omega arith)) (
              going_on-Succeeding queue table clock IsPrepared _ (
                drain_ready-IsPrepared entry.inner
                  (record (Defs.tick queue table clock s) { suspend = l })
                  (record { runnable = (tick-IsPrepared s p).runnable; waiting = there.1 })))
      ]
    ]

    syscall_round-IsPrepared :
        (s : Scheduler queue table)
        → IsPrepared s
        → Succeeding queue table clock IsPrepared (syscall_round queue table clock s)
    syscall_round-IsPrepared s p = elim (List-cases s.syscall_suspend) [
      | inl empty ↦ rw (syscall_round_empty queue table clock s empty) p
      | inr ((k, entry), l, e) ↦ elim (dec_lt (clock s.reads) k) [
        | yes early ↦
            rw (syscall_round_early queue table clock s k entry l e early) (tick-IsPrepared s p)
        | no due ↦
            let ticked = tick-IsPrepared s p in
            rw (syscall_round_due queue table clock s k entry l e (omega arith)) (
              going_on-Succeeding queue table clock IsPrepared _ (
                drain_names-IsPrepared entry.inner
                  (record (Defs.tick queue table clock s) { syscall_suspend = l })
                  (record { runnable = ticked.runnable; waiting = ticked.waiting })))
      ]
    ]

    -- Where `check_ready` succeeds, every coroutine that it leaves ready may be resumed, and every one
    -- that it leaves suspended waits for its entry's time at the latest.
    pub check_ready-IsPrepared :
        (s : Scheduler queue table)
        → IsPrepared s
        → Succeeding queue table clock IsPrepared (check_ready queue table clock s)
    check_ready-IsPrepared =
        check_ready-Succeeding queue table clock IsPrepared suspend_round-IsPrepared
          syscall_round-IsPrepared
