-- ===== src/Pool/Work.antt =====
-- What a worker of open-coroutine-core/src/pool/mod.rs does with the tasks it finds.
use open_coroutine.Base.{
  ℕ, zero, suc, ◌+◌, ◌<◌, ◌≡◌, inl, inr, refl, ap, ◌∙◌, ltb, ◌==◌, List, [], ◌∷◌, Bool, false,
  Option, none, some, length, Bool-cases, arith,
}
use open_coroutine.Queue.Deques.{Injectors}
use open_coroutine.Pool.Task.{Task, Outcome, run}
use open_coroutine.Pool.Defs
use open_coroutine.Pool.Defs.{
  Pool, PoolState, Ran, idle, ran, broken, Pause, returned, suspended, blocked, panicked, exhausted,
  is_stopping, put, notified,
}

-- Running tasks one after the other, as the results and the flags of the waiting threads see it.
abbrev pub recorded : List Task → (ℕ → Option Outcome) → ℕ → Option Outcome
recorded [] results = results
recorded (t ∷ tasks) results = recorded tasks (put ((run t).0) (some ((run t).1)) results)

abbrev pub noted : List Task → (ℕ → Option Bool) → ℕ → Option Bool
noted [] waits = waits
noted (t ∷ tasks) waits = noted tasks (put ((run t).0) (notified (waits ((run t).0))) waits)

-- No task's name has a result when it ends.
abbrev pub Fresh : List Task → (ℕ → Option Outcome) → Type 0
Fresh [] results = Unit
Fresh (t ∷ tasks) results =
    (results ((run t).0) ≡ none) × Fresh tasks (put ((run t).0) (some ((run t).1)) results)

-- A worker gives way in one of the ways that the code foresees.
abbrev pub GivesWay : Pause → Type 0
GivesWay returned = Unit
GivesWay suspended = Unit
GivesWay blocked = Unit
GivesWay panicked = ⊥
GivesWay exhausted = ⊥

module _ (injectors : Injectors Task) where
  abbrev pub waiting : Pool injectors → List Task
  waiting p = injectors.waiting p.task_queue

  pop_empty : (p : Pool injectors) → waiting p ≡ [] → Defs.pop injectors p ≡ (p, none)
  unfolding Defs.pop
  pop_empty p e = rw (e) refl

  some_waiting : (t : Task) (tasks xs : List Task) → xs ≡ t ∷ tasks → (length xs == 0) ≡ false
  some_waiting t tasks xs e = rw (e) (ground arith)

  pop_first :
      (p : Pool injectors) (t : Task) (tasks : List Task)
      → waiting p ≡ t ∷ tasks
      → Defs.pop injectors p ≡ (record p { task_queue = (injectors.steal p.task_queue).0 }, some t)
  unfolding Defs.pop Defs.pop_loop
  pop_first p t tasks e =
      rw (some_waiting t tasks (waiting p) e)
        (rw ((injectors.steal_first t tasks p.task_queue e).0, Defs.pop_loop) refl)

  try_run_empty : (p : Pool injectors) → waiting p ≡ [] → Defs.try_run injectors p ≡ (p, idle)
  unfolding Defs.try_run
  try_run_empty p e = ap (Defs.finish injectors) (pop_empty p e)

  -- The pool behind the first task.
  abbrev pub behind : Task → Pool injectors → Pool injectors
  behind t p = record p {
    task_queue = (injectors.steal p.task_queue).0;
    results = put ((run t).0) (some ((run t).1)) p.results;
    waits = put ((run t).0) (notified (p.waits ((run t).0))) p.waits;
  }

  pub try_run_first :
      (p : Pool injectors) (t : Task) (tasks : List Task)
      → waiting p ≡ t ∷ tasks
      → p.results ((run t).0) ≡ none
      → Defs.try_run injectors p ≡ (behind t p, ran)
  unfolding Defs.try_run
  try_run_first p t tasks e fresh =
      ap (Defs.finish injectors) (pop_first p t tasks e)
      ∙ ap
          (λ old.
            Defs.inserted injectors ((run t).0) ((run t).1) old
              (record p { task_queue = (injectors.steal p.task_queue).0 }))
          fresh

  -- The pool behind these tasks, and how the worker gave way.
  pub WorksOff : List Task → Pool injectors → Pool injectors × Pause → Type 0
  WorksOff tasks p (q, pause) =
      (waiting q ≡ [])
      × (q.results ≡ recorded tasks p.results)
      × (q.waits ≡ noted tasks p.waits)
      × GivesWay pause

  rest-WorksOff :
      (create_time now : ℕ) (p : Pool injectors)
      → waiting p ≡ []
      → WorksOff [] p (Defs.rest injectors create_time now p)
  unfolding Defs.rest WorksOff
  rest-WorksOff create_time now p e = elim (Bool-cases (Defs.retires injectors create_time now p)) [
    | inl retired ↦ rw (retired) (e, refl, refl, tt)
    | inr stays ↦ elim (Bool-cases (ltb (p.pop_fail_times + 1) p.running)) [
      | inl few ↦ rw (stays) (rw (few) (e, refl, refl, tt))
      | inr many ↦ rw (stays) (rw (many) (e, refl, refl, tt))
    ]
  ]

  -- A worker that is given enough turns for the tasks in the queue, of whose names none has a result
  -- when its turn comes, runs them all in their order and then gives way: no task is left, every
  -- task's outcome is recorded under its name, the threads that wait for them are notified, and
  -- neither the results of other names nor their waiting threads are touched.
  pub work-WorksOff :
      (tasks : List Task) (fuel create_time now : ℕ) (p : Pool injectors)
      → length tasks < fuel
      → waiting p ≡ tasks
      → Fresh tasks p.results
      → WorksOff tasks p (Defs.work injectors fuel create_time now p)
  unfolding Defs.work WorksOff
  work-WorksOff tasks zero create_time now p h e fresh = absurd (omega arith)
  work-WorksOff [] (suc fuel) create_time now p h e fresh =
      rw (try_run_empty p e) (rest-WorksOff create_time now p e)
  work-WorksOff (t ∷ tasks) (suc fuel) create_time now p h e fresh =
      rw (try_run_first p t tasks e fresh.0) (
        work-WorksOff tasks fuel create_time now (record (behind t p) { pop_fail_times = 0 })
          (omega arith) (injectors.steal_first t tasks p.task_queue e).1 fresh.1)
