-- ===== src/Scheduler/Stack.antt =====
-- The thread's stack of schedulers through `try_timeout_schedule`, errors included.
use open_coroutine.Base.{
  ℕ, zero, suc, ◌-◌, ◌≡◌, refl, sym, ap, ◌∙◌, inl, inr, ◌==◌, List, ◌∷◌, some, some-injective,
  false, arith, Option-cases, Bool-cases,
}
use open_coroutine.Coroutine.Resume.{drop_front}
use open_coroutine.Scheduler.Containers.{ReadyQueue, Table}
use open_coroutine.Scheduler.Defs.{
  SchedulableCoroutine, Scheduler, Done, fine, fails, Failure, panic, change_failed, State, repeat,
  drain_ready, suspend_round, time_out, drain_names, syscall_round, going_on, check_ready, file,
  conclude, run_coroutine, Turn, again, stop, schedule_round, schedule_loop, try_timeout_schedule,
}
use open_coroutine.Scheduler.Defs
use open_coroutine.Scheduler.Steps.{
  Done-cases, Turn-cases, schedule_round_expired, schedule_round_unchecked, schedule_round_idle,
  schedule_round_ran, schedule_round_broke, schedule_loop_again, schedule_loop-stop,
}
use open_coroutine.Scheduler.Fronts.{Stacked, moved, check_ready-Stacked, run_coroutine-Stacked}

module _ (queue : ReadyQueue SchedulableCoroutine) (table : Table SchedulableCoroutine)
    (clock : ℕ → ℕ) where
  -- What the loop returns: the front of the stack is gone, unless it panics.
  abbrev pub Unstacked : List ℕ → Done queue table ℕ → Type 0
  Unstacked l (fine s left) = s.schedulers ≡ l
  Unstacked l (fails s panic) = Unit {0}
  Unstacked l (fails s e) = s.schedulers ≡ l

  failed-Unstacked :
      {A : Type 0} (l : List ℕ) (s : Scheduler queue table) (e : Failure) (d : Done queue table A)
      → d ≡ fails s e
      → Stacked queue table clock l d
      → Unstacked (drop_front l) (fails s e)
  failed-Unstacked {A = A} l s e d q k = again_failed s e (rw q at k)
    where
      again_failed :
          (s : Scheduler queue table) (e : Failure)
          → Stacked queue table clock {A = A} l (fails s e)
          → Unstacked (drop_front l) (fails s e)
      again_failed s panic k = tt
      again_failed s e k = k

  -- A round leaves the stack as it is or ends the loop.
  abbrev Rounded : List ℕ → Turn queue table clock → Type 0
  Rounded l (again s) = s.schedulers ≡ l
  Rounded l (stop d) = Unstacked (drop_front l) d

  ran-Rounded :
      (timeout_time : ℕ) (s s' : Scheduler queue table) (x : Unit {0}) (c : SchedulableCoroutine)
      → (timeout_time - clock s.reads == 0) ≡ false
      → check_ready queue table clock (Defs.tick queue table clock s) ≡ fine s' x
      → (queue.pop_front s'.ready).1 ≡ some c
      → s'.schedulers ≡ s.schedulers
      → Rounded s.schedulers (schedule_round queue table clock timeout_time s)
  ran-Rounded timeout_time s s' x c left checked popped same =
      let taken = record s' { ready = (queue.pop_front s'.ready).0 } in
      let ran =
        moved queue table clock s'.schedulers s.schedulers _ same
          (run_coroutine-Stacked queue table clock timeout_time c taken) in
      elim (Done-cases queue table clock (run_coroutine queue table clock timeout_time c taken)) [
        | inr (s'', f, e) ↦
            rw
              (schedule_round_broke queue table clock timeout_time s s' s'' x f c left checked
                popped e)
              (failed-Unstacked s.schedulers s'' f _ e ran)
        | inl (s'', y, e) ↦
            rw
              (schedule_round_ran queue table clock timeout_time s s' s'' x y c left checked popped
                e)
              (rw e at ran)
      ]

  schedule_round-Rounded :
      (timeout_time : ℕ) (s : Scheduler queue table)
      → Rounded s.schedulers (schedule_round queue table clock timeout_time s)
  schedule_round-Rounded timeout_time s =
      let kept = check_ready-Stacked queue table clock (Defs.tick queue table clock s) in
      elim (Bool-cases (timeout_time - clock s.reads == 0)) [
        | inl over ↦ rw (schedule_round_expired queue table clock timeout_time s over) refl
        | inr left ↦
            elim (Done-cases queue table clock
              (check_ready queue table clock (Defs.tick queue table clock s))) [
                | inr (s', f, e) ↦
                    rw (schedule_round_unchecked queue table clock timeout_time s s' f left e)
                      (failed-Unstacked s.schedulers s' f _ e kept)
                | inl (s', x, e) ↦ elim (Option-cases (queue.pop_front s'.ready).1) [
                  | inl idle ↦
                      rw (schedule_round_idle queue table clock timeout_time s s' x left e idle)
                        (ap drop_front (rw e at kept))
                  | inr (c, popped) ↦ ran-Rounded timeout_time s s' x c left e popped (rw e at kept)
                ]
              ]
      ]

  ended : (l : List ℕ) (d d' : Done queue table ℕ) → d ≡ d' → Unstacked l d → Unstacked l d'
  ended l d d' e k = rw e at k

  Rounded-moved : (l l' : List ℕ) (t : Turn queue table clock) → l ≡ l' → Rounded l t → Rounded l' t
  Rounded-moved l l' t e k = rw e at k

  schedule_loop-Unstacked :
      (fuel timeout_time : ℕ) (s : Scheduler queue table) (d : Done queue table ℕ) (l : List ℕ)
      → s.schedulers ≡ l
      → schedule_loop queue table clock fuel timeout_time s ≡ some d
      → Unstacked (drop_front l) d
  unfolding schedule_loop
  schedule_loop-Unstacked zero timeout_time s d l q h = absurd (ground arith)
  schedule_loop-Unstacked (suc fuel) timeout_time s d l q h =
      let rounded = Rounded-moved s.schedulers l _ q (schedule_round-Rounded timeout_time s) in
      elim (Turn-cases queue table clock (schedule_round queue table clock timeout_time s)) [
        | inl (s', e) ↦
            schedule_loop-Unstacked fuel timeout_time s' d l (rw e at rounded)
              (sym (schedule_loop_again queue table clock fuel timeout_time s s' e) ∙ h)
        | inr (d', e) ↦
            let same =
              some-injective d' d
                (sym (schedule_loop-stop queue table clock fuel timeout_time s d' e) ∙ h) in
            ended (drop_front l) d' d same (rw e at rounded)
      ]

  -- Whatever `try_timeout_schedule` returns, a value or an error, the thread's stack of schedulers is
  -- as it was before; only a panic may leave the scheduler on it.
  pub try_timeout_schedule-Unstacked :
      (fuel timeout_time : ℕ) (s : Scheduler queue table) (d : Done queue table ℕ)
      → try_timeout_schedule queue table clock fuel timeout_time s ≡ some d
      → Unstacked s.schedulers d
  unfolding try_timeout_schedule
  try_timeout_schedule-Unstacked fuel timeout_time s d h =
      schedule_loop-Unstacked fuel timeout_time (Defs.init_current queue table clock s) d
        (s.name ∷ s.schedulers) refl h
