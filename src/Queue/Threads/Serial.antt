-- ===== src/Queue/Threads/Serial.antt =====
-- Threads that take turns: each call by itself, the calls of all threads in any order.
use open_coroutine.Base.{
  ℕ, ◌+◌, ◌-◌, ◌≤◌, ◌<◌, ◌≡◌, refl, ap, ◌∙◌, ◌==◌, List, [], ◌∷◌, ◌++◌, Option, none, some, false,
  get_elem?, set_nth, length, All, arith, u64_max, Bool-cases, List-cases, Option-cases, inl, inr,
  All-get_elem?, All-set_nth,
}
use open_coroutine.Queue.Deques.{Injectors, Workers, success, empty}
use open_coroutine.Queue.Steal.{Shared, is_empty, push, pop, steal_shared}
use open_coroutine.Queue.Threads.Defs.{
  idle, Thread, Move, calls_push, calls_pop, runs, Racing, incremented, decremented, move, moves,
  thread_of,
}
use open_coroutine.Queue.Threads.Alone.{
  runs_on, moves-append, push_steps, pop_steps_zero, pop_steps_empty, pop_steps_first,
}

-- A call of a thread.
pub data Call (T : Type 0) : Type 0 where
  pushing : ℕ → T → Call T
  popping : ℕ → Call T

abbrev pub caller : {T : Type 0} → Call T → ℕ
caller (pushing i x) = i
caller (popping i) = i

-- The moves of a call that nothing interrupts.
abbrev pub alone : {T : Type 0} (injectors : Injectors T) → Call T → List (Move T)
alone injectors (pushing i x) = calls_push i x ∷ runs_on injectors i
alone injectors (popping i) = calls_pop i ∷ runs_on injectors i

module _ {T : Type 0} (injectors : Injectors T) (workers : Workers T) where
  -- The threads over the shared queue of the model in which a call is one step.
  abbrev pub over : Shared injectors workers → List (Thread T) → Racing injectors
  over g ts = record { shared_queue = g.shared_queue; len = g.len; threads = ts }

  unfoldable pub serially : List (Call T) → List (Move T)
  serially [] = []
  serially (c ∷ cs) = alone injectors c ++ serially cs

  abbrev pub rested : List (Thread T) → ℕ → List (Option T) → List (Thread T)
  rested ts i got = set_nth ts i (record { phase = idle; got = got })

  -- A call as one step, by `push` and `pop`.
  abbrev pub step_by :
      Call T
      → Thread T
      → Shared injectors workers
      → List (Thread T)
      → Shared injectors workers × List (Thread T)
  step_by (pushing i x) t g ts = (push injectors workers x g, rested ts i t.got)
  step_by (popping i) t g ts =
      let popped = pop injectors workers g in (popped.0, rested ts i (popped.1 ∷ t.got))

  unfoldable pub step :
      Call T
      → Shared injectors workers
      → List (Thread T)
      → Shared injectors workers × List (Thread T)
  step c g ts = elim (get_elem? ts (caller c)) [ none ↦ (g, ts) | some t ↦ step_by c t g ts ]

  unfoldable pub steps :
      List (Call T)
      → Shared injectors workers
      → List (Thread T)
      → Shared injectors workers × List (Thread T)
  unfolding step
  steps [] g ts = (g, ts)
  steps (c ∷ cs) g ts = let next = step c g ts in steps cs next.0 next.1

  pub counted_up : (n : ℕ) → n < u64_max → incremented n ≡ n + 1
  counted_up n h = ground arith

  counted_down : (n : ℕ) → (n == 0) ≡ false → decremented n ≡ n - 1
  counted_down n h = rw h

  push_alone :
      (i : ℕ) (x : T) (got : List (Option T)) (g : Shared injectors workers) (ts : List (Thread T))
      → g.len < u64_max
      → get_elem? ts i ≡ some (record { phase = idle; got = got })
      → moves injectors (alone injectors (pushing i x)) (over g ts)
        ≡ over (push injectors workers x g) (rested ts i got)
  unfolding push
  push_alone i x got g ts small there =
      push_steps injectors i got (over g ts) there x
      ∙ ap
          (λ (n : ℕ).
            over (record g { shared_queue = injectors.push x g.shared_queue; len = n })
              (rested ts i got))
          (counted_up g.len small)

  pub pop_zero : (g : Shared injectors workers) → g.len ≡ 0 → pop injectors workers g ≡ (g, none)
  unfolding pop is_empty
  pop_zero g e = rw e

  pub pop_success :
      (x : T) (g : Shared injectors workers)
      → (g.len == 0) ≡ false
      → (injectors.steal g.shared_queue).1 ≡ success x
      → pop injectors workers g
        ≡ (record g { shared_queue = (injectors.steal g.shared_queue).0; len = g.len - 1 }, some x)
  unfolding pop is_empty
  pop_success x g e first = rw e (rw (first, steal_shared))

  pop_failure :
      (g : Shared injectors workers)
      → (g.len == 0) ≡ false
      → (injectors.steal g.shared_queue).1 ≡ empty
      → pop injectors workers g
        ≡ (record g { shared_queue = (injectors.steal g.shared_queue).0 }, none)
  unfolding pop is_empty
  pop_failure g e failed = rw e (rw (failed, steal_shared))

  pop_alone :
      (i : ℕ) (got : List (Option T)) (g : Shared injectors workers) (ts : List (Thread T))
      → get_elem? ts i ≡ some (record { phase = idle; got = got })
      → moves injectors (alone injectors (popping i)) (over g ts)
        ≡ over (pop injectors workers g).0 (rested ts i ((pop injectors workers g).1 ∷ got))
  pop_alone i got g ts there = elim (Bool-cases (g.len == 0)) [
    | inl zeroed ↦
        let e : g.len ≡ 0 = ground arith in
        rw (pop_zero g e) (pop_steps_zero injectors i got (over g ts) there e)
    | inr counted ↦ elim (List-cases (injectors.waiting g.shared_queue)) [
      | inl nothing ↦
          let failed = (injectors.steal_none g.shared_queue nothing).0 in
          rw (pop_failure g counted failed)
            (pop_steps_empty injectors i got (over g ts) there counted failed)
      | inr (x, xs, waits) ↦
          let first = (injectors.steal_first x xs g.shared_queue waits).0 in
          rw (pop_success x g counted first) (
            pop_steps_first injectors i got (over g ts) there x counted first
            ∙ ap
                (λ (n : ℕ).
                  over (record g { shared_queue = (injectors.steal g.shared_queue).0; len = n })
                    (rested ts i (some x ∷ got)))
                (counted_down g.len counted))
    ]
  ]

  pop_len : (g : Shared injectors workers) → (pop injectors workers g).0.len ≤ g.len
  pop_len g = elim (Bool-cases (g.len == 0)) [
    | inl zeroed ↦ rw (pop_zero g (ground arith)) (omega arith)
    | inr counted ↦ elim (List-cases (injectors.waiting g.shared_queue)) [
      | inl nothing ↦
          rw (pop_failure g counted (injectors.steal_none g.shared_queue nothing).0) (omega arith)
      | inr (x, xs, waits) ↦
          rw (pop_success x g counted (injectors.steal_first x xs g.shared_queue waits).0)
            (omega arith)
    ]
  ]

  abbrev pub IsIdle : Thread T → Type 0
  IsIdle t = t.phase ≡ idle

  -- What a call owes, made by a thread that is idle: it leaves what one step leaves, the threads
  -- idle, and the number larger by one at most.
  record Steps (c : Call T) (g : Shared injectors workers) (ts : List (Thread T))
      (next : Shared injectors workers × List (Thread T)) : Type 0 where
    same : moves injectors (alone injectors c) (over g ts) ≡ over next.0 next.1
    still : All IsIdle next.1
    counted : next.0.len ≤ g.len + 1

  called :
      (c : Call T) (t : Thread T) (g : Shared injectors workers) (ts : List (Thread T))
      → All IsIdle ts
      → g.len < u64_max
      → get_elem? ts (caller c) ≡ some t
      → Steps c g ts (step_by c t g ts)
  unfolding push
  called (pushing i x) t g ts still small there =
      let at_rest = All-get_elem? IsIdle ts i t still there in
      record {
        same = push_alone i x t.got g ts small (rw at_rest at there);
        still = All-set_nth IsIdle ts i _ still refl;
        counted = omega arith;
      }
  called (popping i) t g ts still small there =
      let at_rest = All-get_elem? IsIdle ts i t still there in
      record {
        same = pop_alone i t.got g ts (rw at_rest at there);
        still = All-set_nth IsIdle ts i _ still refl;
        counted = omega (arith, pop_len g);
      }

  nobody :
      (m : Move T) (r : Racing injectors)
      → get_elem? r.threads (thread_of injectors m) ≡ none
      → move injectors m r ≡ r
  unfolding move
  nobody m r e = rw (e, move)

  nobody_calls :
      (c : Call T) (r : Racing injectors)
      → get_elem? r.threads (caller c) ≡ none
      → moves injectors (alone injectors c) r ≡ r
  unfolding moves
  nobody_calls (pushing i x) r e =
      rw
        (
          nobody (calls_push i x) r e,
          nobody (runs i) r e,
          nobody (runs i) r e,
          nobody (runs i) r e,
          nobody (runs i) r e,
        )
        refl
  nobody_calls (popping i) r e =
      rw
        (
          nobody (calls_pop i) r e,
          nobody (runs i) r e,
          nobody (runs i) r e,
          nobody (runs i) r e,
          nobody (runs i) r e,
        )
        refl

  step-Steps :
      (c : Call T) (g : Shared injectors workers) (ts : List (Thread T))
      → All IsIdle ts
      → g.len < u64_max
      → Steps c g ts (step c g ts)
  unfolding step
  step-Steps c g ts still small = elim (Option-cases (get_elem? ts (caller c))) [
    | inl e ↦
        rw (e, step)
          (record { same = nobody_calls c (over g ts) e; still = still; counted = omega arith })
    | inr (t, e) ↦ rw (e, step) (called c t g ts still small e)
  ]

  -- Threads that are idle at first and whose calls of `push` and `pop` follow one another, in any
  -- order and with none of them interrupted, leave the shared queue, the number that it keeps and what
  -- each of them has got as those calls do as single steps, if the number cannot overflow.
  pub serially-steps :
      (cs : List (Call T)) (g : Shared injectors workers) (ts : List (Thread T))
      → All IsIdle ts
      → g.len + length cs ≤ u64_max
      → moves injectors (serially cs) (over g ts) ≡ over (steps cs g ts).0 (steps cs g ts).1
  unfolding serially steps moves
  serially-steps [] g ts still small = refl
  serially-steps (c ∷ cs) g ts still small =
      let done = step-Steps c g ts still (omega arith) in
      moves-append injectors (alone injectors c) (serially cs) (over g ts)
      ∙ ap (moves injectors (serially cs)) done.same
      ∙ serially-steps cs (step c g ts).0 (step c g ts).1 done.still (omega (arith, done.counted))
