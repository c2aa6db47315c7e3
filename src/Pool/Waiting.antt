-- ===== src/Pool/Waiting.antt =====
-- A coroutine that waits for the result of a task in the queue of its own pool runs the tasks itself.
use std.Path.{fun_ext}
use open_coroutine.Base.{
  ℕ, zero, suc, ◌-◌, ◌<◌, ◌≡◌, ◌==◌, List, [], ◌∷◌, ◌++◌, true, false, refl, sym, ap, ◌∙◌, Option,
  none, some, length, arith, All, Bool-cases, inl, inr, ==→eq, ==_refl,
}
use open_coroutine.Queue.Deques.{Injectors}
use open_coroutine.Timer.Deadline.{get_timeout_time}
use open_coroutine.Pool.Task.{Task, run}
use open_coroutine.Pool.Defs
use open_coroutine.Pool.Defs.{Pool, put, Ran, idle, ran, broken, notified}
use open_coroutine.Pool.Lifecycle.{Wait, result}
use open_coroutine.Pool.Work
use open_coroutine.Pool.Work.{Fresh, recorded, noted}
use open_coroutine.Pool.Join

put_again : {A : Type 0} (k : ℕ) (v : A) (f : ℕ → A) (i : ℕ) → f k ≡ v → put k v f i ≡ f i
put_again k v f i e = elim (Bool-cases (k == i)) [
  | inl same ↦ rw (same) (sym e ∙ ap f (==→eq k i same))
  | inr other ↦ rw (other) refl
]

put_here : {A : Type 0} (k : ℕ) (v : A) (f : ℕ → A) → put k v f k ≡ v
put_here k v f = rw (==_refl k) refl

put_there :
    {A : Type 0} (k i : ℕ) (v w : A) (f : ℕ → A) → (k == i) ≡ false → f i ≡ w → put k v f i ≡ w
put_there k i v w f e h = rw (e) h

put_same : {A : Type 0} (k : ℕ) (v : A) (f : ℕ → A) → f k ≡ v → put k v f ≡ f
put_same k v f e = fun_ext (λ i. put_again k v f i e)

module _ (injectors : Injectors Task) where
  -- The wait ends with the task's outcome, and in a pool in which the tasks before it and the task have
  -- run: their outcomes are recorded and those who wait for them are told, the task's own outcome is
  -- taken, and the tasks behind it wait as before.
  abbrev pub Gets :
      List Task → List Task → Task → Pool injectors → Option (Pool injectors × Wait) → Type 0
  Gets before after t p none = ⊥
  Gets before after t p (some (q, w)) =
      (w ≡ result ((run t).1))
      × (injectors.waiting q.task_queue ≡ after)
      × (q.results ≡ put ((run t).0) none (recorded (before ++ t ∷ []) p.results))
      × (q.waits ≡ noted (before ++ t ∷ []) p.waits)

  looked_there :
      (again : Pool injectors → Option (Pool injectors × Wait)) (left : ℕ) (t : Task)
      (after : List Task) (p : Pool injectors)
      → injectors.waiting p.task_queue ≡ t ∷ after
      → Gets [] after t p (
          Join.looked injectors again left
            (Defs.try_get_result injectors ((run t).0) (Work.behind injectors t p)))
  unfolding Defs.try_get_result
  looked_there again left t after p e =
      rw (put_here ((run t).0) (some ((run t).1)) p.results)
        (refl, (injectors.steal_first t after p.task_queue e).1, refl, refl)

  not_over : (left : ℕ) → 0 < left → (left == 0) ≡ false
  not_over left h = ground arith

  looked_absent :
      (again : Pool injectors → Option (Pool injectors × Wait)) (left name : ℕ) (p : Pool injectors)
      → p.results name ≡ none
      → 0 < left
      → Join.looked injectors again left (Defs.try_get_result injectors name p) ≡ again p
  unfolding Defs.try_get_result
  looked_absent again left name p e h =
      rw (e) (rw (put_same name none p.results e) (rw (not_over left h) refl))

  -- The queue holds these tasks, which run before the task t; none of the names is taken.
  wait-Gets :
      (before after : List Task) (t : Task) (fuel timeout_time : ℕ) (clock : ℕ → ℕ)
      (p : Pool injectors)
      → injectors.waiting p.task_queue ≡ before ++ t ∷ after
      → Fresh (before ++ t ∷ []) p.results
      → All (λ b. ((run b).0 == (run t).0) ≡ false) before
      → p.results ((run t).0) ≡ none
      → ((n : ℕ) → clock n < timeout_time)
      → length before < fuel
      → Gets before after t p
          (Join.wait_in_coroutine injectors fuel timeout_time clock ((run t).0) p)
  unfolding Join.wait_in_coroutine
  wait-Gets before after t zero timeout_time clock p e fresh others absent early h =
      absurd (omega arith)
  wait-Gets [] after t (suc fuel) timeout_time clock p e fresh others absent early h =
      rw (Work.try_run_first injectors p t after e absent) (
        looked_there
          (λ q.
            Join.wait_in_coroutine injectors fuel timeout_time (λ n. clock (suc n)) ((run t).0) q)
          (timeout_time - clock 0) t after p e)
  wait-Gets (b ∷ before) after t (suc fuel) timeout_time clock p e fresh others absent early h =
      let still : (Work.behind injectors b p).results ((run t).0) ≡ none =
        put_there ((run b).0) ((run t).0) (some ((run b).1)) none p.results others.0 absent in
      rw (Work.try_run_first injectors p b (before ++ t ∷ after) e fresh.0) (
        rw
          (looked_absent
            (λ q.
              Join.wait_in_coroutine injectors fuel timeout_time (λ n. clock (suc n)) ((run t).0) q)
            (timeout_time - clock 0) ((run t).0) (Work.behind injectors b p) still
            (omega (arith, early 0)))
          (wait-Gets before after t fuel timeout_time (λ n. clock (suc n))
            (Work.behind injectors b p)
            (injectors.steal_first b (before ++ t ∷ after) p.task_queue e).1 fresh.1 others.1 still
            (λ n. early (suc n)) (omega arith)))

  -- A coroutine that waits for a task still in the queue of the pool gets that task's outcome, and
  -- the tasks before it and the task itself have run then: their outcomes are recorded, the task's
  -- own taken off again, those who wait for them are told, and the tasks behind it are still in the
  -- queue. That is so when no name of these has a result, when the names before differ from the
  -- task's, and when every reading of the clock behind the first is before the deadline that the
  -- first one sets.
  pub wait_result-Gets :
      (waited : Pool injectors → Pool injectors) (before after : List Task) (t : Task)
      (fuel wait_time : ℕ) (clock : ℕ → ℕ) (p : Pool injectors)
      → injectors.waiting p.task_queue ≡ before ++ t ∷ after
      → Fresh (before ++ t ∷ []) p.results
      → All (λ b. ((run b).0 == (run t).0) ≡ false) before
      → p.results ((run t).0) ≡ none
      → ((n : ℕ) → clock (suc n) < get_timeout_time wait_time (clock 0))
      → length before < fuel
      → Gets before after t p
          (Join.wait_result injectors waited true fuel clock ((run t).0) wait_time p)
  unfolding Join.wait_result Defs.try_get_result
  wait_result-Gets waited before after t fuel wait_time clock p e fresh others absent early h =
      rw (absent) (
        rw (put_same ((run t).0) none p.results absent) (
          wait-Gets before after t fuel (get_timeout_time wait_time (clock 0)) (λ n. clock (suc n))
            p e fresh others absent early h))
