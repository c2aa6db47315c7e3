-- ===== src/Scheduler/Due.antt =====
-- The coroutines that are due are let into the ready queue without a failure.
use mathlib.Core.Logic.{if_pos}
use open_coroutine.Base.{
  ℕ, zero, suc, ◌+◌, ◌≤◌, ◌≡◌, refl, ◌∙◌, inl, inr, List, [], ◌∷◌, none, Bool, true, false, All,
  arith, List-cases,
}
use open_coroutine.Timer.Queue.{TimerList}
use open_coroutine.Coroutine.State.{
  CoroutineState, SyscallState, Syscall, Syscall-discrete, timeout,
}
use open_coroutine.Coroutine.Machine.{ready, syscall}
use open_coroutine.Scheduler.Containers.{ReadyQueue, Table}
use open_coroutine.Scheduler.Defs.{
  SchedulableCoroutine, Scheduler, Done, fine, fails, Failure, State, reads_of, repeat, drain_ready,
  suspend_round, time_out, drain_names, syscall_round, going_on, check_ready,
}
use open_coroutine.Scheduler.Defs
use open_coroutine.Scheduler.Steps.{
  drain_ready_accepted, suspend_round_empty, suspend_round_early, suspend_round_due,
}
use native.Mathlib.Decide.{dec_lt}

-- A coroutine that is suspended until a time at the latest.
abbrev pub Waits : ℕ → State → Type 0
Waits k (CoroutineState.suspend v ts) = ts ≤ k
Waits k _ = ⊥

abbrev pub IsCall : State → Type 0
IsCall (CoroutineState.system_call v call st) = Unit {0}
IsCall _ = ⊥

-- Every coroutine of an entry is suspended until the entry's time at the latest.
abbrev pub AllWait : TimerList SchedulableCoroutine → Type 0
AllWait [] = Unit {0}
AllWait ((k, e) ∷ l) = All (λ c. Waits k c.state) e.inner × AllWait l

Waits-ready : (k now : ℕ) (state : State) → k ≤ now → Waits k state → (ready now state).1 ≡ none
unfolding ready
Waits-ready k now (CoroutineState.suspend v ts) le w = ground arith
Waits-ready k now CoroutineState.created le w = absurd w
Waits-ready k now CoroutineState.ready le w = absurd w
Waits-ready k now CoroutineState.running le w = absurd w
Waits-ready k now (CoroutineState.system_call v call st) le w = absurd w
Waits-ready k now (CoroutineState.complete r) le w = absurd w
Waits-ready k now (CoroutineState.error m) le w = absurd w

module _ (queue : ReadyQueue SchedulableCoroutine) (table : Table SchedulableCoroutine)
    (clock : ℕ → ℕ) where
  -- Success, with what holds then.
  abbrev pub Fine : {A : Type 0} → (Scheduler queue table → Type 0) → Done queue table A → Type 0
  Fine P (fine s a) = P s
  Fine P (fails s e) = ⊥

  same_call :
      (call : Syscall) (ts : ℕ)
      → syscall {Y = Unit {0}} {R = Unit {0}} tt call timeout
          (CoroutineState.system_call tt call (SyscallState.suspend ts))
        ≡ (CoroutineState.system_call tt call timeout, none)
  unfolding syscall
  same_call call ts = rw (if_pos (Syscall-discrete call call) refl)

  pub call_timed_out : (state : State) → IsCall state → (time_out queue table clock state).1 ≡ none
  unfolding time_out
  call_timed_out (CoroutineState.system_call v call (SyscallState.suspend ts)) w =
      rw (same_call call ts, time_out) refl
  call_timed_out (CoroutineState.system_call v call st) w = refl
  call_timed_out CoroutineState.created w = absurd w
  call_timed_out CoroutineState.ready w = absurd w
  call_timed_out CoroutineState.running w = absurd w
  call_timed_out (CoroutineState.suspend v ts) w = absurd w
  call_timed_out (CoroutineState.complete r) w = absurd w
  call_timed_out (CoroutineState.error m) w = absurd w

  -- The suspended and the system calls are as given.
  abbrev Kept : TimerList SchedulableCoroutine → table.Map → Scheduler queue table → Type 0
  Kept l m s = (s.suspend ≡ l) × (s.syscall ≡ m)

  drain_ready-Fine :
      ((n m : ℕ) → n ≤ m → clock n ≤ clock m)
      → (k : ℕ) (cs : List SchedulableCoroutine) (s : Scheduler queue table) → k ≤ clock s.reads
      → All (λ c. Waits k c.state) cs
      → Fine (Kept s.suspend s.syscall) (drain_ready queue table clock cs s)
  unfolding drain_ready
  drain_ready-Fine rises k [] s le w = (refl, refl)
  drain_ready-Fine rises k (c ∷ cs) s le w =
      let accepted = Waits-ready k (clock s.reads) c.state le w.0 in
      let later : clock s.reads ≤ clock (s.reads + reads_of c.state) =
        rises s.reads (s.reads + reads_of c.state) (omega arith) in
      rw (drain_ready_accepted queue table clock c cs s accepted) (
        drain_ready-Fine rises k cs
          (Defs.push_ready queue table clock
            (record c { state = (ready (clock s.reads) c.state).0 })
            (Defs.tick_for queue table clock c.state s))
          (omega (arith, le, later)) w.1)

  -- What holds between the rounds of the first loop.
  abbrev pub Waiting : table.Map → Scheduler queue table → Type 0
  Waiting m s = AllWait s.suspend × (s.syscall ≡ m)

  drained :
      (l : TimerList SchedulableCoroutine) (m m' : table.Map) (d : Done queue table (Unit {0}))
      → AllWait l
      → m ≡ m'
      → Fine (Kept l m) d
      → Fine (Waiting m') (going_on queue table clock d)
  drained l m m' (fine s x) w e k = (rw (k.0) w, k.1 ∙ e)
  drained l m m' (fails s f) w e k = absurd k

  pub suspend_round-Fine :
      ((n m : ℕ) → n ≤ m → clock n ≤ clock m)
      → (m : table.Map) (s : Scheduler queue table) → Waiting m s
      → Fine (Waiting m) (suspend_round queue table clock s)
  suspend_round-Fine rises m s w = elim (List-cases s.suspend) [
    | inl empty ↦ rw (suspend_round_empty queue table clock s empty) w
    | inr ((k, entry), l, e) ↦ elim (dec_lt (clock s.reads) k) [
      | yes early ↦ rw (suspend_round_early queue table clock s k entry l e early) w
      | no due ↦
          let there : AllWait ((k, entry) ∷ l) = rw e at (w.0) in
          let later = rises s.reads (suc s.reads) (omega arith) in
          rw (suspend_round_due queue table clock s k entry l e (omega arith)) (
            drained l s.syscall m _ there.1 w.1 (
              drain_ready-Fine rises k entry.inner
                (record (Defs.tick queue table clock s) { suspend = l }) (omega (arith, due, later))
                there.0))
    ]
  ]

  pub repeat-Fine :
      (P : Scheduler queue table → Type 0) (n : ℕ)
      (round : Scheduler queue table → Done queue table Bool)
      → ((s : Scheduler queue table) → P s → Fine P (round s))
      → (s : Scheduler queue table) → P s
      → Fine P (repeat queue table clock n round s)
  unfolding repeat
  repeat-Fine P zero round keep s p = p
  repeat-Fine P (suc n) round keep s p = after (round s) (keep s p) (repeat-Fine P n round keep)
    where
      after :
          (d : Done queue table Bool)
          → Fine P d
          → ((t : Scheduler queue table) → P t → Fine P (repeat queue table clock n round t))
          → Fine P (elim d as (λ _. Done queue table (Unit {0})) [
            | fine s' go_on ↦ elim go_on [
              | true ↦ repeat queue table clock n round s'
              | false ↦ fine s' tt
            ]
            | fails s' e ↦ fails s' e
          ])
      after (fine t true) k rest = rest t k
      after (fine t false) k rest = k
      after (fails t e) k rest = absurd k
