-- ===== src/Scheduler/Held.antt =====
-- The coroutines that a scheduler holds are neither lost nor doubled by `check_ready`.
use open_coroutine.Base.{total, ℕ, ◌+◌, ◌≡◌, refl, ap, inl, inr, ◌∷◌, Bool, arith, List-cases}
use open_coroutine.Timer.Entry.{TimerEntry}
use open_coroutine.Timer.Queue.{TimerList}
use open_coroutine.Timer.Order.{events, IsOrdered}
use open_coroutine.Timer.Map.{From-mono}
use open_coroutine.Scheduler.Containers.{ReadyQueue, Table}
use open_coroutine.Scheduler.Defs.{
  SchedulableCoroutine, Scheduler, Done, fine, fails, Failure, panic, repeat, drain_ready,
  suspend_round, time_out, drain_names, syscall_round, check_ready, going_on, State,
}
use open_coroutine.Scheduler.Defs
use open_coroutine.Scheduler.Steps.{
  suspend_round_empty, suspend_round_early, suspend_round_due, syscall_round_empty,
  syscall_round_early, syscall_round_due,
}
use native.Mathlib.Decide.{dec_lt}
use open_coroutine.Scheduler.Loops.{
  Succeeding, Succeeding-map, going_on-Succeeding, check_ready-Succeeding,
}
use open_coroutine.Scheduler.Kept.{
  Weight, weigh, total_events, total_tagged, held, Keeps, Keeps-trans, drain_ready-Keeps,
  drain_names-Keeps, tick-Keeps, same-Keeps,
}

module _ (queue : ReadyQueue SchedulableCoroutine) (table : Table SchedulableCoroutine)
    (clock : ℕ → ℕ) (g : Weight) where
  -- An entry is taken out of the suspended.
  popped_weight :
      (s : Scheduler queue table) (k : ℕ) (entry : TimerEntry SchedulableCoroutine)
      (l : TimerList SchedulableCoroutine)
      → s.suspend ≡ (k, entry) ∷ l
      → held queue table clock g s
        ≡ total (weigh g) entry.inner
          + held queue table clock g (record (Defs.tick queue table clock s) { suspend = l })
  unfolding held events
  popped_weight s k entry l e = omega (
    arith,
    ap (λ x. total_events (weigh g) (events x)) e,
    total_tagged (weigh g) k entry.inner (events l),
  )

  popped_order :
      (s : Scheduler queue table) (k : ℕ) (entry : TimerEntry SchedulableCoroutine)
      (l : TimerList SchedulableCoroutine)
      → IsOrdered s.suspend
      → s.suspend ≡ (k, entry) ∷ l
      → IsOrdered l
  popped_order s k entry l o e = From-mono l (omega arith) (rw e at o).1

  suspend_round-Keeps :
      (s : Scheduler queue table)
      → IsOrdered s.suspend
      → Succeeding queue table clock
          (Keeps queue table clock g 0 s)
          (suspend_round queue table clock s)
  suspend_round-Keeps s o = elim (List-cases s.suspend) [
    | inl empty ↦
        rw (suspend_round_empty queue table clock s empty) (same-Keeps queue table clock g s o)
    | inr ((k, entry), l, e) ↦ elim (dec_lt (clock s.reads) k) [
      | yes early ↦
          rw (suspend_round_early queue table clock s k entry l e early)
            (tick-Keeps queue table clock g s o)
      | no due ↦ rw (suspend_round_due queue table clock s k entry l e (omega arith)) (
          going_on-Succeeding queue table clock (Keeps queue table clock g 0 s) _ (
            Succeeding-map queue table clock
              (Keeps queue table clock g (total (weigh g) entry.inner) _)
              (Keeps queue table clock g 0 s) _
              (λ u r. record {
                weight = omega (arith, r.weight, popped_weight s k entry l e);
                ordered = r.ordered;
                schedulers = r.schedulers;
                locals = r.locals;
                name = r.name;
              })
              (drain_ready-Keeps queue table clock g entry.inner
                (record (Defs.tick queue table clock s) { suspend = l })
                (popped_order s k entry l o e))))
    ]
  ]

  names_popped :
      (s : Scheduler queue table) (l : TimerList ℕ)
      → IsOrdered s.suspend
      → Keeps queue table clock g 0 s
          (record (Defs.tick queue table clock s) { syscall_suspend = l })
  unfolding held
  names_popped s l o = record {
    weight = omega arith;
    ordered = o;
    schedulers = refl;
    locals = refl;
    name = refl;
  }

  syscall_round-Keeps :
      (s : Scheduler queue table)
      → IsOrdered s.suspend
      → Succeeding queue table clock
          (Keeps queue table clock g 0 s)
          (syscall_round queue table clock s)
  syscall_round-Keeps s o = elim (List-cases s.syscall_suspend) [
    | inl empty ↦
        rw (syscall_round_empty queue table clock s empty) (same-Keeps queue table clock g s o)
    | inr ((k, entry), l, e) ↦ elim (dec_lt (clock s.reads) k) [
      | yes early ↦
          rw (syscall_round_early queue table clock s k entry l e early)
            (tick-Keeps queue table clock g s o)
      | no due ↦
          let s' = record (Defs.tick queue table clock s) { syscall_suspend = l } in
          rw (syscall_round_due queue table clock s k entry l e (omega arith)) (
            going_on-Succeeding queue table clock (Keeps queue table clock g 0 s) _ (
              Succeeding-map queue table clock (Keeps queue table clock g 0 s')
                (Keeps queue table clock g 0 s) _
                (λ u r. Keeps-trans queue table clock g 0 0 s s' u (names_popped s l o) r)
                (drain_names-Keeps queue table clock g entry.inner s' o)))
    ]
  ]

  -- A round carries on what was kept before it.
  then_Keeps :
      (round : Scheduler queue table → Done queue table Bool)
      → ((s : Scheduler queue table)
          → IsOrdered s.suspend
          → Succeeding queue table clock (Keeps queue table clock g 0 s) (round s))
      → (s t : Scheduler queue table) → Keeps queue table clock g 0 s t
      → Succeeding queue table clock (Keeps queue table clock g 0 s) (round t)
  then_Keeps round keep s t k =
      Succeeding-map queue table clock (Keeps queue table clock g 0 t)
        (Keeps queue table clock g 0 s) (round t)
        (λ u r. Keeps-trans queue table clock g 0 0 s t u k r) (keep t k.ordered)

  -- On a scheduler whose suspended coroutines are in order, `check_ready` either fails or loses and
  -- doubles no coroutine: whatever is counted of a coroutine by its name and its body, the ready, the
  -- suspended and the system calls together hold as much as before. The suspended are still in
  -- order, and the thread's stacks and the scheduler's name are what they were.
  pub check_ready-Keeps :
      (s : Scheduler queue table)
      → IsOrdered s.suspend
      → Succeeding queue table clock
          (Keeps queue table clock g 0 s)
          (check_ready queue table clock s)
  check_ready-Keeps s o =
      check_ready-Succeeding queue table clock (Keeps queue table clock g 0 s)
        (then_Keeps (suspend_round queue table clock) suspend_round-Keeps s)
        (then_Keeps (syscall_round queue table clock) syscall_round-Keeps s) s
        (same-Keeps queue table clock g s o)
