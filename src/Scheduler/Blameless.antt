-- ===== src/Scheduler/Blameless.antt =====
-- The scheduling loop's own changes of state do not fail.
use open_coroutine.Base.{
  ℕ, zero, suc, ◌-◌, ◌≤◌, ◌≡◌, sym, ◌∙◌, inl, inr, ◌==◌, none, some, some-injective, false, arith,
  Option-cases, Bool-cases,
}
use open_coroutine.Scheduler.Containers.{ReadyQueue, Table}
use open_coroutine.Scheduler.Defs.{
  SchedulableCoroutine, Scheduler, Done, fine, fails, Failure, panic, change_failed, resumed_in,
  never_here, State, check_ready, file, conclude, run_coroutine, Turn, again, stop, schedule_round,
  schedule_loop, try_timeout_schedule,
}
use open_coroutine.Scheduler.Defs
use open_coroutine.Scheduler.Steps.{
  Done-cases, Turn-cases, schedule_round_expired, schedule_round_idle, schedule_round_ran,
  schedule_round_broke, schedule_loop_again, schedule_loop-stop,
}
use open_coroutine.Scheduler.Runs.{Runs}
use open_coroutine.Scheduler.Whole.{
  IsWhole, Blameless, tick-IsWhole, check_ready-IsWhole, run_coroutine-Blameless,
}

module _ (queue : ReadyQueue SchedulableCoroutine) (table : Table SchedulableCoroutine)
    (clock : ℕ → ℕ) (rises : (n m : ℕ) → n ≤ m → clock n ≤ clock m) where
  -- A round that does not end the loop leaves a whole scheduler.
  abbrev Rounded : Turn queue table clock → Type 0
  Rounded (again s) = IsWhole queue table clock s
  Rounded (stop d) = Blameless queue table clock d

  ran-Rounded :
      (timeout_time : ℕ) (s s' : Scheduler queue table) (x : Unit {0}) (c : SchedulableCoroutine)
      → (timeout_time - clock s.reads == 0) ≡ false
      → check_ready queue table clock (Defs.tick queue table clock s) ≡ fine s' x
      → (queue.pop_front s'.ready).1 ≡ some c
      → IsWhole queue table clock s'
      → Rounded (schedule_round queue table clock timeout_time s)
  ran-Rounded timeout_time s s' x c left checked popped w =
      let taken = record s' { ready = (queue.pop_front s'.ready).0 } in
      let (runs, others) =
        queue.pop_all (λ d. Runs (clock s'.reads) d.state) s'.ready c popped w.prepared.runnable in
      let ran = run_coroutine-Blameless queue table clock rises timeout_time c taken runs (record {
        prepared = record { runnable = others; waiting = w.prepared.waiting };
        calls = w.calls;
        ordered = w.ordered;
      }) in
      elim (Done-cases queue table clock (run_coroutine queue table clock timeout_time c taken)) [
        | inr (s'', f, e) ↦
            rw
              (schedule_round_broke queue table clock timeout_time s s' s'' x f c left checked
                popped e)
              (rw e at ran)
        | inl (s'', y, e) ↦
            rw
              (schedule_round_ran queue table clock timeout_time s s' s'' x y c left checked popped
                e)
              (rw e at ran)
      ]

  idle-IsWhole :
      (s : Scheduler queue table)
      → (queue.pop_front s.ready).1 ≡ none
      → IsWhole queue table clock s
      → IsWhole queue table clock
          (Defs.clean_current queue table clock (record s { ready = (queue.pop_front s.ready).0 }))
  idle-IsWhole s e w = record {
    prepared = record {
      runnable = rw (queue.pop_none s.ready e).1 tt;
      waiting = w.prepared.waiting;
    };
    calls = w.calls;
    ordered = w.ordered;
  }

  schedule_round-Rounded :
      (timeout_time : ℕ) (s : Scheduler queue table)
      → IsWhole queue table clock s
      → Rounded (schedule_round queue table clock timeout_time s)
  schedule_round-Rounded timeout_time s w =
      let ticked = tick-IsWhole queue table clock rises s w in
      let kept =
        check_ready-IsWhole queue table clock rises (Defs.tick queue table clock s) ticked in
      elim (Bool-cases (timeout_time - clock s.reads == 0)) [
        | inl over ↦ rw (schedule_round_expired queue table clock timeout_time s over) (record {
          prepared = record { runnable = ticked.prepared.runnable; waiting = w.prepared.waiting };
          calls = w.calls;
          ordered = w.ordered;
        })
        | inr left ↦
            elim (Done-cases queue table clock
              (check_ready queue table clock (Defs.tick queue table clock s))) [
                | inr (s', f, e) ↦ absurd (rw e at kept)
                | inl (s', x, e) ↦ elim (Option-cases (queue.pop_front s'.ready).1) [
                  | inl idle ↦
                      rw (schedule_round_idle queue table clock timeout_time s s' x left e idle)
                        (idle-IsWhole s' idle (rw e at kept))
                  | inr (c, popped) ↦ ran-Rounded timeout_time s s' x c left e popped (rw e at kept)
                ]
              ]
      ]

  ended :
      (d d' : Done queue table ℕ)
      → d ≡ d'
      → Blameless queue table clock d
      → Blameless queue table clock d'
  ended d d' e b = rw e at b

  schedule_loop-Blameless :
      (fuel timeout_time : ℕ) (s : Scheduler queue table) (d : Done queue table ℕ)
      → IsWhole queue table clock s
      → schedule_loop queue table clock fuel timeout_time s ≡ some d
      → Blameless queue table clock d
  unfolding schedule_loop
  schedule_loop-Blameless zero timeout_time s d w h = absurd (ground arith)
  schedule_loop-Blameless (suc fuel) timeout_time s d w h =
      let rounded = schedule_round-Rounded timeout_time s w in
      elim (Turn-cases queue table clock (schedule_round queue table clock timeout_time s)) [
        | inl (s', e) ↦
            schedule_loop-Blameless fuel timeout_time s' d (rw e at rounded)
              (sym (schedule_loop_again queue table clock fuel timeout_time s s' e) ∙ h)
        | inr (d', e) ↦
            ended d' d
              (some-injective d' d
                (sym (schedule_loop-stop queue table clock fuel timeout_time s d' e) ∙ h))
              (rw e at rounded)
      ]

  -- If the clock never goes back and every coroutine is where its state belongs (the ready may be
  -- resumed, the suspended wait for their entries' times at the latest and in order, the table's
  -- are in system calls), then whatever `try_timeout_schedule` returns, a value leaves every
  -- coroutine where its state belongs, and an error is that of a coroutine whose function ended or
  -- yielded in a state that does not fit: no state change of the scheduler's own fails, and no
  -- branch that should not be reached is.
  pub try_timeout_schedule-Blameless :
      (fuel timeout_time : ℕ) (s : Scheduler queue table) (d : Done queue table ℕ)
      → IsWhole queue table clock s
      → try_timeout_schedule queue table clock fuel timeout_time s ≡ some d
      → Blameless queue table clock d
  unfolding try_timeout_schedule
  try_timeout_schedule-Blameless fuel timeout_time s d w h =
      schedule_loop-Blameless fuel timeout_time (Defs.init_current queue table clock s) d
        (record {
          prepared = record { runnable = w.prepared.runnable; waiting = w.prepared.waiting };
          calls = w.calls;
          ordered = w.ordered;
        })
        h
