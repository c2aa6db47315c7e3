-- ===== src/Scheduler/Sound.antt =====
-- `check_ready` does not fail on a scheduler that keeps every coroutine where its state belongs.
use open_coroutine.Base.{
  ℕ, ◌≤◌, ◌≡◌, refl, sym, inl, inr, ◌==◌, List, [], ◌∷◌, Option, none, some, arith, Option-cases,
  Bool-cases, List-cases,
}
use open_coroutine.Timer.Queue.{TimerList}
use open_coroutine.Timer.Queue
use open_coroutine.Scheduler.Containers.{ReadyQueue, Table}
use open_coroutine.Scheduler.Defs.{
  SchedulableCoroutine, Scheduler, Done, fine, fails, Failure, State, reads_of, repeat, drain_ready,
  suspend_round, time_out, drain_names, syscall_round, going_on, check_ready,
}
use open_coroutine.Scheduler.Defs
use open_coroutine.Scheduler.Steps.{
  drain_names_missing, drain_names_accepted, syscall_round_empty, syscall_round_early,
  syscall_round_due,
}
use native.Mathlib.Decide.{dec_lt}
use open_coroutine.Scheduler.Due.{
  AllWait, IsCall, Fine, call_timed_out, Waiting, repeat-Fine, suspend_round-Fine,
}

module _ (queue : ReadyQueue SchedulableCoroutine) (table : Table SchedulableCoroutine)
    (clock : ℕ → ℕ) where
  abbrev pub CallAt : Option SchedulableCoroutine → Type 0
  CallAt none = Unit {0}
  CallAt (some c) = IsCall c.state

  -- Every coroutine in the table is in a system call.
  abbrev pub AllCalls : table.Map → Type 0
  AllCalls m = (k : ℕ) → CallAt (table.get k m)

  pub remove-AllCalls : (k : ℕ) (m : table.Map) → AllCalls m → AllCalls (table.remove k m)
  remove-AllCalls k m calls i =
      rw (table.get-remove k i m)
        (elim (Bool-cases (k == i)) [ inl e ↦ rw e tt | inr e ↦ rw e (calls i) ])

  moved_calls : (m m' : table.Map) → m ≡ m' → AllCalls m → AllCalls m'
  moved_calls m m' e calls = rw e at calls

  drain_names-Fine :
      (ks : List ℕ) (s : Scheduler queue table)
      → AllCalls s.syscall
      → Fine queue table clock (λ t. AllCalls t.syscall) (drain_names queue table clock ks s)
  unfolding drain_names
  drain_names-Fine [] s calls = calls
  drain_names-Fine (k ∷ ks) s calls = elim (Option-cases (table.get k s.syscall)) [
    | inl missing ↦
        rw (drain_names_missing queue table clock k ks s missing) (drain_names-Fine ks s calls)
    | inr (c, there) ↦
        let accepted = call_timed_out queue table clock c.state (rw there at (calls k)) in
        rw (drain_names_accepted queue table clock k ks s c there accepted) (
          drain_names-Fine ks
            (Defs.push_ready queue table clock
              (record c { state = (time_out queue table clock c.state).0 })
              (record s { syscall = table.remove k s.syscall }))
            (remove-AllCalls k s.syscall calls))
  ]

  going_on-Fine :
      (P : Scheduler queue table → Type 0) (d : Done queue table (Unit {0}))
      → Fine queue table clock P d
      → Fine queue table clock P (going_on queue table clock d)
  going_on-Fine P (fine s x) k = k
  going_on-Fine P (fails s e) k = absurd k

  syscall_round-Fine :
      (s : Scheduler queue table)
      → AllCalls s.syscall
      → Fine queue table clock (λ t. AllCalls t.syscall) (syscall_round queue table clock s)
  syscall_round-Fine s calls = elim (List-cases s.syscall_suspend) [
    | inl empty ↦ rw (syscall_round_empty queue table clock s empty) calls
    | inr ((k, entry), l, e) ↦ elim (dec_lt (clock s.reads) k) [
      | yes early ↦ rw (syscall_round_early queue table clock s k entry l e early) calls
      | no due ↦ rw (syscall_round_due queue table clock s k entry l e (omega arith)) (
          going_on-Fine (λ t. AllCalls t.syscall) _
            (drain_names-Fine entry.inner
              (record (Defs.tick queue table clock s) { syscall_suspend = l }) calls))
    ]
  ]

  -- If the clock never goes back, every suspended coroutine is suspended until its entry's time at the
  -- latest, and every coroutine in the table is in a system call, then `check_ready` succeeds, and
  -- every coroutine left in the table is in a system call.
  pub check_ready-Fine :
      ((n m : ℕ) → n ≤ m → clock n ≤ clock m)
      → (s : Scheduler queue table) → AllWait s.suspend
      → AllCalls s.syscall
      → Fine queue table clock (λ t. AllCalls t.syscall) (check_ready queue table clock s)
  unfolding check_ready
  check_ready-Fine rises s waits calls =
      after
        (repeat queue table clock (Queue.entry_len s.suspend) (suspend_round queue table clock) s)
        (repeat-Fine queue table clock (Waiting queue table clock s.syscall)
          (Queue.entry_len s.suspend) (suspend_round queue table clock)
          (suspend_round-Fine queue table clock rises s.syscall) s (waits, refl))
    where
      after :
          (d : Done queue table (Unit {0}))
          → Fine queue table clock (Waiting queue table clock s.syscall) d
          → Fine queue table clock
              (λ t. AllCalls t.syscall)
              (elim d as (λ _. Done queue table (Unit {0})) [
                | fine s' _ ↦
                    repeat queue table clock
                      (Queue.entry_len s'.syscall_suspend)
                      (syscall_round queue table clock)
                      s'
                | fails s' e ↦ fails s' e
              ])
      after (fine t x) k =
          repeat-Fine queue table clock (λ u. AllCalls u.syscall)
            (Queue.entry_len t.syscall_suspend) (syscall_round queue table clock) syscall_round-Fine
            t (moved_calls s.syscall t.syscall (sym k.1) calls)
      after (fails t e) k = absurd k
