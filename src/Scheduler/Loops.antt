-- ===== src/Scheduler/Loops.antt =====
-- What holds of a scheduler where the loops of `check_ready` succeed.
use open_coroutine.Base.{ℕ, Bool, true, false, zero, suc}
use open_coroutine.Scheduler.Containers.{ReadyQueue, Table}
use open_coroutine.Scheduler.Defs.{
  SchedulableCoroutine, Scheduler, Done, fine, fails, repeat, suspend_round, syscall_round,
  check_ready, going_on,
}
use open_coroutine.Timer.Queue

module _ (queue : ReadyQueue SchedulableCoroutine) (table : Table SchedulableCoroutine)
    (clock : ℕ → ℕ) where
  -- What holds where an operation succeeds.
  abbrev pub Succeeding :
      {A : Type 0} → (Scheduler queue table → Type 0) → Done queue table A → Type 0
  Succeeding P (fine s a) = P s
  Succeeding P (fails s e) = Unit {0}

  pub Succeeding-map :
      {A : Type 0} (P Q : Scheduler queue table → Type 0) (d : Done queue table A)
      → ((s : Scheduler queue table) → P s → Q s)
      → Succeeding P d
      → Succeeding Q d
  Succeeding-map P Q (fine s a) pq p = pq s p
  Succeeding-map P Q (fails s e) pq p = tt

  pub going_on-Succeeding :
      (P : Scheduler queue table → Type 0) (d : Done queue table (Unit {0}))
      → Succeeding P d
      → Succeeding P (going_on queue table clock d)
  going_on-Succeeding P (fine s _) p = p
  going_on-Succeeding P (fails s e) p = tt

  pub repeat-Succeeding :
      (P : Scheduler queue table → Type 0) (n : ℕ)
      (round : Scheduler queue table → Done queue table Bool)
      → ((s : Scheduler queue table) → P s → Succeeding P (round s))
      → (s : Scheduler queue table) → P s
      → Succeeding P (repeat queue table clock n round s)
  unfolding repeat
  repeat-Succeeding P zero round keep s p = p
  repeat-Succeeding P (suc n) round keep s p =
      after (round s) (keep s p) (repeat-Succeeding P n round keep)
    where
      after :
          (d : Done queue table Bool)
          → Succeeding P d
          → ((t : Scheduler queue table) → P t → Succeeding P (repeat queue table clock n round t))
          → Succeeding P (elim d as (λ _. Done queue table (Unit {0})) [
            | fine s' go_on ↦ elim go_on [
              | true ↦ repeat queue table clock n round s'
              | false ↦ fine s' tt
            ]
            | fails s' e ↦ fails s' e
          ])
      after (fine t true) k rest = rest t k
      after (fine t false) k rest = k
      after (fails t e) k rest = tt

  -- `check_ready` keeps what the rounds of its two loops keep.
  pub check_ready-Succeeding :
      (P : Scheduler queue table → Type 0)
      → ((s : Scheduler queue table) → P s → Succeeding P (suspend_round queue table clock s))
      → ((s : Scheduler queue table) → P s → Succeeding P (syscall_round queue table clock s))
      → (s : Scheduler queue table) → P s
      → Succeeding P (check_ready queue table clock s)
  unfolding check_ready
  check_ready-Succeeding P first second s p =
      after
        (repeat queue table clock (Queue.entry_len s.suspend) (suspend_round queue table clock) s)
        (repeat-Succeeding P (Queue.entry_len s.suspend) (suspend_round queue table clock) first s
          p)
    where
      after :
          (d : Done queue table (Unit {0}))
          → Succeeding P d
          → Succeeding P (elim d as (λ _. Done queue table (Unit {0})) [
            | fine s' _ ↦
                repeat queue table clock
                  (Queue.entry_len s'.syscall_suspend)
                  (syscall_round queue table clock)
                  s'
            | fails s' e ↦ fails s' e
          ])
      after (fine t x) k =
          repeat-Succeeding P (Queue.entry_len t.syscall_suspend) (syscall_round queue table clock)
            second t k
      after (fails t e) k = tt
