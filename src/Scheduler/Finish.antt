-- ===== src/Scheduler/Finish.antt =====
-- `try_timeout_schedule` returns: each round takes a part off a coroutine's function.
use open_coroutine.Base.{
  total, ℕ, zero, suc, ◌+◌, ◌-◌, ◌≤◌, ◌<◌, ◌≡◌, refl, ap, inl, inr, leb, ◌==◌, some, false, arith,
  Option-cases, Bool-cases,
}
use open_coroutine.Timer.Queue
use open_coroutine.Timer.Order.{IsOrdered, events, insert-schedule}
use open_coroutine.Coroutine.State.{CoroutineState, SyscallState}
use open_coroutine.Coroutine.Resume.{Outcome, ok, Resumed, resume_with}
use open_coroutine.Scheduler.Containers.{ReadyQueue, Table}
use open_coroutine.Scheduler.Defs.{
  SchedulableCoroutine, Scheduler, Done, fine, fails, Failure, State, check_ready, file, conclude,
  run_coroutine, Turn, again, stop, schedule_round, schedule_loop, try_timeout_schedule,
}
use open_coroutine.Scheduler.Defs
use open_coroutine.Scheduler.Steps.{
  Done-cases, Turn-cases, schedule_round_expired, schedule_round_unchecked, schedule_round_idle,
  schedule_round_ran, schedule_round_broke, schedule_loop_again, schedule_loop-stop,
}
use open_coroutine.Scheduler.Loops.{Succeeding, Succeeding-map}
use open_coroutine.Scheduler.Kept.{Weight, weigh, total_events, total-schedule, held, Keeps}
use open_coroutine.Scheduler.Held.{check_ready-Keeps}
use open_coroutine.Scheduler.Parts.{parts, parts_left, parts_positive, resume_with-parts}

abbrev by_parts : Weight
by_parts name b = parts b

module _ (queue : ReadyQueue SchedulableCoroutine) (table : Table SchedulableCoroutine)
    (clock : ℕ → ℕ) where
  -- The parts that all coroutines of the scheduler have still to run.
  unfoldable pub parts_held : Scheduler queue table → ℕ
  parts_held s = held queue table clock by_parts s

  put_total :
      (c : SchedulableCoroutine) (m : table.Map)
      → total (weigh by_parts) (table.values (table.insert c.name c m))
        ≤ parts c.inner + total (weigh by_parts) (table.values m)
  put_total c m = elim (Option-cases (table.get c.name m)) [
    | inl new ↦ omega (arith, table.insert_new (weigh by_parts) c.name c m new)
    | inr (d, old) ↦ omega (arith, table.insert_over (weigh by_parts) c.name c d m old)
  ]

  -- What a round leaves, where it does not fail.
  record Within (most : ℕ) (s' : Scheduler queue table) : Type 0 where
    bounded : parts_held s' ≤ most
    ordered : IsOrdered s'.suspend

  waits_Within :
      (timeout_time ts : ℕ) (c : SchedulableCoroutine) (s : Scheduler queue table)
      → IsOrdered s.suspend
      → Within
          (parts c.inner + parts_held s)
          (record (Defs.notify queue table clock
            (Defs.on_suspend timeout_time c.name)
            (Defs.tick queue table clock s)) { suspend = Queue.insert ts c s.suspend })
  unfolding parts_held held
  waits_Within timeout_time ts c s o =
      let inserted = insert-schedule ts c s.suspend o in
      record {
        bounded = omega (
          arith,
          ap (total_events (weigh by_parts)) inserted.0,
          total-schedule (weigh by_parts) ts c (events s.suspend),
        );
        ordered = inserted.1;
      }

  file-Within :
      (timeout_time : ℕ) (c : SchedulableCoroutine) (t : State) (s : Scheduler queue table)
      → IsOrdered s.suspend
      → Succeeding queue table clock
          (Within (parts_left t c.inner + parts_held s))
          (file queue table clock timeout_time c t s)
  unfolding file parts_held held
  file-Within timeout_time c (CoroutineState.suspend v ts) s o =
      elim (Bool-cases (leb ts (clock s.reads))) [
        | inl due ↦ rw due (record {
          bounded = omega (arith, queue.push_total (weigh by_parts) c s.ready);
          ordered = o;
        })
        | inr waits ↦ rw waits (waits_Within timeout_time ts c s o)
      ]
  file-Within timeout_time c (CoroutineState.system_call v call (SyscallState.suspend ts)) s o =
      record { bounded = omega (arith, put_total c s.syscall); ordered = o }
  file-Within timeout_time c (CoroutineState.system_call v call st) s o = record {
    bounded = omega (arith, put_total c s.syscall);
    ordered = o;
  }
  file-Within timeout_time c (CoroutineState.complete r) s o = record {
    bounded = omega arith;
    ordered = o;
  }
  file-Within timeout_time c (CoroutineState.error m) s o = record {
    bounded = omega arith;
    ordered = o;
  }
  file-Within timeout_time c t s o = tt

  conclude-Within :
      (timeout_time most : ℕ) (r : Resumed (Unit {0}) (Unit {0})) (s : Scheduler queue table)
      (d : Outcome (Unit {0}) (Unit {0}))
      → IsOrdered s.suspend
      → r.outcome ≡ d
      → ((t : State) → r.outcome ≡ ok t → parts_left t r.coroutine.inner < most)
      → Succeeding queue table clock
          (Within (most - 1 + parts_held s))
          (conclude queue table clock timeout_time r d s)
  unfolding conclude
  conclude-Within timeout_time most r s (ok t) o e less =
      Succeeding-map queue table clock (Within (parts_left t r.coroutine.inner + parts_held s))
        (Within (most - 1 + parts_held s)) (file queue table clock timeout_time r.coroutine t s)
        (λ u w. record { bounded = omega (arith, w.bounded, less t e); ordered = w.ordered })
        (file-Within timeout_time r.coroutine t s o)
  conclude-Within timeout_time most r s d o e less = tt

  run_coroutine-Within :
      (timeout_time : ℕ) (c : SchedulableCoroutine) (s : Scheduler queue table)
      → IsOrdered s.suspend
      → Succeeding queue table clock
          (Within (parts c.inner - 1 + parts_held s))
          (run_coroutine queue table clock timeout_time c s)
  unfolding run_coroutine parts_held held
  run_coroutine-Within timeout_time c s o =
      conclude-Within timeout_time (parts c.inner) (resume_with (clock s.reads) s.locals c)
        (record (Defs.notify queue table clock (Defs.on_resume timeout_time c.name)
          (Defs.tick_for queue table clock c.state s)) {
            locals = (resume_with (clock s.reads) s.locals c).locals;
          })
        (resume_with (clock s.reads) s.locals c).outcome o refl
        (λ t h. resume_with-parts (clock s.reads) s.locals c t h)

  -- A round that does not end the loop.
  abbrev Falls : ℕ → Turn queue table clock → Type 0
  Falls most (again s) = (parts_held s < most) × IsOrdered s.suspend
  Falls most (stop d) = Unit {0}

  after_pop :
      (most : ℕ) (s' s'' : Scheduler queue table) (c : SchedulableCoroutine)
      → (queue.pop_front s'.ready).1 ≡ some c
      → parts_held s' ≡ most
      → Within
          (parts c.inner - 1 + parts_held (record s' { ready = (queue.pop_front s'.ready).0 }))
          s''
      → (parts_held s'' < most) × IsOrdered s''.suspend
  unfolding parts_held held
  after_pop most s' s'' c popped e w =
      let taken = queue.pop_total (weigh by_parts) s'.ready c popped in
      (omega (arith, w.bounded, e, taken, parts_positive c.inner), w.ordered)

  -- A round in which a coroutine is run.
  ran-Falls :
      (timeout_time : ℕ) (s s' : Scheduler queue table) (x : Unit {0}) (c : SchedulableCoroutine)
      → (timeout_time - clock s.reads == 0) ≡ false
      → check_ready queue table clock (Defs.tick queue table clock s) ≡ fine s' x
      → (queue.pop_front s'.ready).1 ≡ some c
      → Keeps queue table clock by_parts 0 (Defs.tick queue table clock s) s'
      → Falls (parts_held s) (schedule_round queue table clock timeout_time s)
  unfolding parts_held held
  ran-Falls timeout_time s s' x c left checked popped keeps =
      let taken = record s' { ready = (queue.pop_front s'.ready).0 } in
      let within = run_coroutine-Within timeout_time c taken keeps.ordered in
      elim (Done-cases queue table clock (run_coroutine queue table clock timeout_time c taken)) [
        | inr (s'', f, e) ↦
            rw
              (schedule_round_broke queue table clock timeout_time s s' s'' x f c left checked
                popped e)
              tt
        | inl (s'', y, e) ↦
            rw
              (schedule_round_ran queue table clock timeout_time s s' s'' x y c left checked popped
                e)
              (after_pop (parts_held s) s' s'' c popped (omega (arith, keeps.weight))
                (rw e at within))
      ]

  schedule_round-Falls :
      (timeout_time : ℕ) (s : Scheduler queue table)
      → IsOrdered s.suspend
      → Falls (parts_held s) (schedule_round queue table clock timeout_time s)
  schedule_round-Falls timeout_time s o =
      let kept = check_ready-Keeps queue table clock by_parts (Defs.tick queue table clock s) o in
      elim (Bool-cases (timeout_time - clock s.reads == 0)) [
        | inl over ↦ rw (schedule_round_expired queue table clock timeout_time s over) tt
        | inr left ↦
            elim (Done-cases queue table clock
              (check_ready queue table clock (Defs.tick queue table clock s))) [
                | inr (s', f, e) ↦
                    rw (schedule_round_unchecked queue table clock timeout_time s s' f left e) tt
                | inl (s', x, e) ↦ elim (Option-cases (queue.pop_front s'.ready).1) [
                  | inl idle ↦
                      rw (schedule_round_idle queue table clock timeout_time s s' x left e idle) tt
                  | inr (c, popped) ↦ ran-Falls timeout_time s s' x c left e popped (rw e at kept)
                ]
              ]
      ]

  schedule_loop_returns :
      (fuel timeout_time : ℕ) (s : Scheduler queue table)
      → IsOrdered s.suspend
      → parts_held s < fuel
      → (d : Done queue table ℕ) × (schedule_loop queue table clock fuel timeout_time s ≡ some d)
  schedule_loop_returns zero timeout_time s o h = absurd (omega arith)
  schedule_loop_returns (suc fuel) timeout_time s o h =
      let falls = schedule_round-Falls timeout_time s o in
      elim (Turn-cases queue table clock (schedule_round queue table clock timeout_time s)) [
        | inl (s', e) ↦
            let within = rw e at falls in
            rw (schedule_loop_again queue table clock fuel timeout_time s s' e)
              (schedule_loop_returns fuel timeout_time s' within.1 (omega (arith, within.0)))
        | inr (d, e) ↦ (d, schedule_loop-stop queue table clock fuel timeout_time s d e)
      ]

  -- On a scheduler whose suspended coroutines are in order, `try_timeout_schedule` returns, whatever
  -- the clock reads: one round more is enough than the parts into which suspensions divide what the
  -- coroutines of the scheduler have still to run.
  pub try_timeout_schedule_returns :
      (fuel timeout_time : ℕ) (s : Scheduler queue table)
      → IsOrdered s.suspend
      → parts_held s < fuel
      → (d : Done queue table ℕ) × (try_timeout_schedule queue table clock fuel timeout_time s
          ≡ some d)
  unfolding try_timeout_schedule parts_held held
  try_timeout_schedule_returns fuel timeout_time s o h =
      schedule_loop_returns fuel timeout_time (Defs.init_current queue table clock s) o h
