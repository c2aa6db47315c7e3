-- ===== src/Scheduler/Steps.antt =====
-- The loops of `check_ready` and of the scheduler one step at a time.
use open_coroutine.Base.{
  ℕ, suc, ◌-◌, ◌≤◌, ◌<◌, ◌≡◌, refl, ◌⊎◌, inl, inr, ◌==◌, List, [], ◌∷◌, none, some, true, false,
  ge→ltb, lt→ltb,
}
use open_coroutine.Timer.Entry.{TimerEntry}
use open_coroutine.Timer.Queue
use open_coroutine.Coroutine.Machine.{Unexpected, ready}
use open_coroutine.Scheduler.Containers.{ReadyQueue, Table}
use open_coroutine.Scheduler.Defs.{
  SchedulableCoroutine, Scheduler, Done, fine, fails, Failure, panic, change_failed, drain_ready,
  suspend_round, time_out, drain_names, syscall_round, check_ready, going_on, tick, tick_for,
  push_ready, clean_current, Turn, again, stop, schedule_round, schedule_loop, run_coroutine,
}

module _ (queue : ReadyQueue SchedulableCoroutine) (table : Table SchedulableCoroutine)
    (clock : ℕ → ℕ) where
  pub drain_ready_accepted :
      (c : SchedulableCoroutine) (cs : List SchedulableCoroutine) (s : Scheduler queue table)
      → (ready (clock s.reads) c.state).1 ≡ none
      → drain_ready queue table clock (c ∷ cs) s
        ≡ drain_ready queue table clock cs (
            push_ready queue table clock
              (record c { state = (ready (clock s.reads) c.state).0 })
              (tick_for queue table clock c.state s))
  unfolding drain_ready
  drain_ready_accepted c cs s e = rw (e, drain_ready)

  pub drain_ready_refused :
      (c : SchedulableCoroutine) (cs : List SchedulableCoroutine) (s : Scheduler queue table)
      (u : Unexpected (Unit {0}) (Unit {0}))
      → (ready (clock s.reads) c.state).1 ≡ some u
      → drain_ready queue table clock (c ∷ cs) s
        ≡ fails
            (clean_current queue table clock (tick_for queue table clock c.state s))
            (change_failed u)
  unfolding drain_ready
  drain_ready_refused c cs s u e = rw (e, drain_ready)

  pub drain_names_missing :
      (k : ℕ) (ks : List ℕ) (s : Scheduler queue table)
      → table.get k s.syscall ≡ none
      → drain_names queue table clock (k ∷ ks) s ≡ drain_names queue table clock ks s
  unfolding drain_names
  drain_names_missing k ks s e = rw (e, drain_names)

  pub drain_names_accepted :
      (k : ℕ) (ks : List ℕ) (s : Scheduler queue table) (c : SchedulableCoroutine)
      → table.get k s.syscall ≡ some c
      → (time_out queue table clock c.state).1 ≡ none
      → drain_names queue table clock (k ∷ ks) s
        ≡ drain_names queue table clock ks (
            push_ready queue table clock
              (record c { state = (time_out queue table clock c.state).0 })
              (record s { syscall = table.remove k s.syscall }))
  unfolding drain_names
  drain_names_accepted k ks s c e a = rw (e, drain_names) (rw a)

  pub drain_names_refused :
      (k : ℕ) (ks : List ℕ) (s : Scheduler queue table) (c : SchedulableCoroutine) (u : Failure)
      → table.get k s.syscall ≡ some c
      → (time_out queue table clock c.state).1 ≡ some u
      → drain_names queue table clock (k ∷ ks) s ≡ (
          let left = record s { syscall = table.remove k s.syscall } in
          fails (elim u [ panic ↦ left | _ ↦ clean_current queue table clock left ]) u)
  unfolding drain_names
  drain_names_refused k ks s c u e a = rw (e, drain_names) (rw a)

  pub suspend_round_empty :
      (s : Scheduler queue table) → s.suspend ≡ [] → suspend_round queue table clock s ≡ fine s true
  unfolding suspend_round
  suspend_round_empty s e = rw (e, Queue.front)

  pub suspend_round_early :
      (s : Scheduler queue table) (k : ℕ) (entry : TimerEntry SchedulableCoroutine)
      (l : Queue.TimerList SchedulableCoroutine)
      → s.suspend ≡ (k, entry) ∷ l
      → clock s.reads < k
      → suspend_round queue table clock s ≡ fine (tick queue table clock s) false
  unfolding suspend_round
  suspend_round_early s k entry l e h = rw (e, Queue.front) (rw (lt→ltb _ _ h))

  pub suspend_round_due :
      (s : Scheduler queue table) (k : ℕ) (entry : TimerEntry SchedulableCoroutine)
      (l : Queue.TimerList SchedulableCoroutine)
      → s.suspend ≡ (k, entry) ∷ l
      → k ≤ clock s.reads
      → suspend_round queue table clock s
        ≡ going_on queue table clock (
            drain_ready queue table clock entry.inner
              (record (tick queue table clock s) { suspend = l }))
  unfolding suspend_round
  suspend_round_due s k entry l e h = rw (e, Queue.front) (rw (ge→ltb _ _ h))

  pub syscall_round_empty :
      (s : Scheduler queue table)
      → s.syscall_suspend ≡ []
      → syscall_round queue table clock s ≡ fine s true
  unfolding syscall_round
  syscall_round_empty s e = rw (e, Queue.front)

  pub syscall_round_early :
      (s : Scheduler queue table) (k : ℕ) (entry : TimerEntry ℕ) (l : Queue.TimerList ℕ)
      → s.syscall_suspend ≡ (k, entry) ∷ l
      → clock s.reads < k
      → syscall_round queue table clock s ≡ fine (tick queue table clock s) false
  unfolding syscall_round
  syscall_round_early s k entry l e h = rw (e, Queue.front) (rw (lt→ltb _ _ h))

  pub syscall_round_due :
      (s : Scheduler queue table) (k : ℕ) (entry : TimerEntry ℕ) (l : Queue.TimerList ℕ)
      → s.syscall_suspend ≡ (k, entry) ∷ l
      → k ≤ clock s.reads
      → syscall_round queue table clock s
        ≡ going_on queue table clock (
            drain_names queue table clock entry.inner
              (record (tick queue table clock s) { syscall_suspend = l }))
  unfolding syscall_round
  syscall_round_due s k entry l e h = rw (e, Queue.front) (rw (ge→ltb _ _ h))

  pub Done-cases :
      {A : Type 0} (d : Done queue table A)
      → ((s : Scheduler queue table) × (a : A) × (d ≡ fine s a))
        ⊎ ((s : Scheduler queue table) × (e : Failure) × (d ≡ fails s e))
  Done-cases (fine s a) = inl (s, a, refl)
  Done-cases (fails s e) = inr (s, e, refl)

  pub Turn-cases :
      (t : Turn queue table clock)
      → ((s : Scheduler queue table) × (t ≡ again s)) ⊎ ((d : Done queue table ℕ) × (t ≡ stop d))
  Turn-cases (again s) = inl (s, refl)
  Turn-cases (stop d) = inr (d, refl)

  pub schedule_round_expired :
      (timeout_time : ℕ) (s : Scheduler queue table)
      → (timeout_time - clock s.reads == 0) ≡ true
      → schedule_round queue table clock timeout_time s
        ≡ stop (fine (clean_current queue table clock (tick queue table clock s)) 0)
  unfolding schedule_round
  schedule_round_expired timeout_time s e = rw e

  pub schedule_round_unchecked :
      (timeout_time : ℕ) (s s' : Scheduler queue table) (f : Failure)
      → (timeout_time - clock s.reads == 0) ≡ false
      → check_ready queue table clock (tick queue table clock s) ≡ fails s' f
      → schedule_round queue table clock timeout_time s ≡ stop (fails s' f)
  unfolding schedule_round
  schedule_round_unchecked timeout_time s s' f e c = rw (e, c)

  pub schedule_round_idle :
      (timeout_time : ℕ) (s s' : Scheduler queue table) (x : Unit {0})
      → (timeout_time - clock s.reads == 0) ≡ false
      → check_ready queue table clock (tick queue table clock s) ≡ fine s' x
      → (queue.pop_front s'.ready).1 ≡ none
      → schedule_round queue table clock timeout_time s
        ≡ stop (
            fine
              (clean_current queue table clock (record s' { ready = (queue.pop_front s'.ready).0 }))
              (timeout_time - clock s.reads))
  unfolding schedule_round
  schedule_round_idle timeout_time s s' x e c p = rw (e, c) (rw p)

  pub schedule_round_ran :
      (timeout_time : ℕ) (s s' s'' : Scheduler queue table) (x y : Unit {0})
      (c : SchedulableCoroutine)
      → (timeout_time - clock s.reads == 0) ≡ false
      → check_ready queue table clock (tick queue table clock s) ≡ fine s' x
      → (queue.pop_front s'.ready).1 ≡ some c
      → run_coroutine queue table clock timeout_time c
          (record s' { ready = (queue.pop_front s'.ready).0 })
        ≡ fine s'' y
      → schedule_round queue table clock timeout_time s ≡ again s''
  unfolding schedule_round
  schedule_round_ran timeout_time s s' s'' x y c e k p r = rw (e, k) (rw p (rw r))

  pub schedule_round_broke :
      (timeout_time : ℕ) (s s' s'' : Scheduler queue table) (x : Unit {0}) (f : Failure)
      (c : SchedulableCoroutine)
      → (timeout_time - clock s.reads == 0) ≡ false
      → check_ready queue table clock (tick queue table clock s) ≡ fine s' x
      → (queue.pop_front s'.ready).1 ≡ some c
      → run_coroutine queue table clock timeout_time c
          (record s' { ready = (queue.pop_front s'.ready).0 })
        ≡ fails s'' f
      → schedule_round queue table clock timeout_time s ≡ stop (fails s'' f)
  unfolding schedule_round
  schedule_round_broke timeout_time s s' s'' x f c e k p r = rw (e, k) (rw p (rw r))

  pub schedule_loop_again :
      (fuel timeout_time : ℕ) (s s' : Scheduler queue table)
      → schedule_round queue table clock timeout_time s ≡ again s'
      → schedule_loop queue table clock (suc fuel) timeout_time s
        ≡ schedule_loop queue table clock fuel timeout_time s'
  unfolding schedule_loop
  schedule_loop_again fuel timeout_time s s' e = rw (e, schedule_loop)

  pub schedule_loop-stop :
      (fuel timeout_time : ℕ) (s : Scheduler queue table) (d : Done queue table ℕ)
      → schedule_round queue table clock timeout_time s ≡ stop d
      → schedule_loop queue table clock (suc fuel) timeout_time s ≡ some d
  unfolding schedule_loop
  schedule_loop-stop fuel timeout_time s d e = rw (e, schedule_loop)
