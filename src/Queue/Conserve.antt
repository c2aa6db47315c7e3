-- ===== src/Queue/Conserve.antt =====
-- The queues lose and double no item, whichever of them it passes through.
use open_coroutine.Base.{
  u32_max, ℕ, ◌+◌, ◌/◌, ◌%◌, ◌^◌, ◌==◌, ◌≡◌, refl, sym, ap, ◌∙◌, inl, inr, [], ◌∷◌, Option, some,
  some-injective, Bool, true, false, length, total, total-append, List-cases, Option-cases,
  Bool-cases, arith,
}
use open_coroutine.Queue.Deques.{Injectors, Workers}
use open_coroutine.Queue.Steal.{
  Shared, LocalQueue, is_empty, pop, steal_shared, try_lock, release_lock, hand_over, push_back,
  next_tick, steal_round, pop_shared, pop_own, steal_locked, if_locked, steal_or_share, pop_local,
  pop_by, pop_front, local_len,
}
use open_coroutine.Queue.Rand.{fastrand_n}
use native.Mathlib.Decide.{dec_lt}
use open_coroutine.Queue.Moves.{
  held_by, held, handed, push_held, pop_worker, hand_over-held, steal_round-held,
}

module _ {T : Type 0} (injectors : Injectors T) (workers : Workers T) (f : T → ℕ) where
  -- An operation that takes one item out, or none.
  abbrev pub Paid : ℕ → LocalQueue injectors workers × Option T → Type 0
  Paid n r = held injectors workers f r.0 + handed injectors workers f r.1 ≡ n

  steal_shared-held :
      (g : Shared injectors workers)
      → total f (injectors.waiting (steal_shared injectors workers 1 g).0.shared_queue)
          + handed injectors workers f (steal_shared injectors workers 1 g).1
        ≡ total f (injectors.waiting g.shared_queue)
  unfolding steal_shared
  steal_shared-held g = elim (List-cases (injectors.waiting g.shared_queue)) [
    | inl e ↦
        let (nothing_there, rest) = injectors.steal_none g.shared_queue e in
        rw (nothing_there, steal_shared) (rw (rest, e) refl)
    | inr (x, xs, e) ↦
        let (first, rest) = injectors.steal_first x xs g.shared_queue e in
        rw (first, steal_shared) (rw (rest, e) (omega arith))
  ]

  pop_shared-Paid :
      (l : LocalQueue injectors workers)
      → Paid (held injectors workers f l) (pop_shared injectors workers l)
  unfolding pop held
  pop_shared-Paid l = elim (Bool-cases (is_empty injectors workers l.shared)) [
    | inl e ↦ rw e (omega arith)
    | inr e ↦ rw e (omega (arith, steal_shared-held l.shared))
  ]

  pop_own-Paid :
      (l : LocalQueue injectors workers)
      → Paid (held injectors workers f l) (pop_own injectors workers l)
  unfolding held
  pop_own-Paid l = omega (arith, pop_worker injectors workers f l.queue)

  pushed_weight :
      (x : T) (w w' : workers.Worker)
      → workers.push x w ≡ some w'
      → (held_by injectors workers f) w' ≡ f x + (held_by injectors workers f) w
  pushed_weight x w w' e = elim (dec_lt (length (workers.items w)) (workers.capacity w)) [
    | yes room ↦
        let (w'', pushed, items_are, _) = workers.push_room x w room in
        let same : w'' ≡ w' = some-injective w'' w' (sym pushed ∙ e) in
        omega (
          arith,
          ap (held_by injectors workers f) same,
          ap (total f) items_are,
          total-append f (workers.items w) (x ∷ []),
        )
    | no full ↦
        let refused = workers.push_full x w (omega (arith, workers.bounded w)) in
        absurd (ground (arith, sym refused ∙ e))
  ]

  -- Putting an item into the local queue, over to the shared queue where it is full, adds that item
  -- and no other to what all queues together hold: every weight of items grows by its weight.
  pub push_back-held :
      (x : T) (l : LocalQueue injectors workers)
      → held injectors workers f (push_back injectors workers x l)
        ≡ f x + held injectors workers f l
  unfolding push_back held
  push_back-held x l = elim (Option-cases (workers.push x l.queue)) [
    | inl full ↦
        let handed_over = hand_over injectors workers (local_len injectors workers l / 2) l in
        rw (full, push_back)
          (omega (
            arith,
            push_held injectors workers f x handed_over.shared,
            hand_over-held injectors workers f (local_len injectors workers l / 2) l,
          ))
    | inr (w, e) ↦ rw (e, push_back) (omega (arith, pushed_weight x l.queue w e))
  ]

  steal_locked-Paid :
      (l : LocalQueue injectors workers)
      → Paid (held injectors workers f l) (steal_locked injectors workers l)
  unfolding held release_lock steal_locked
  steal_locked-Paid l =
      let num = length l.before + 1 + length l.behind in
      let start = (fastrand_n (num % 2 ^ 32) l.rand).1 in
      let drawn = record l { rand = (fastrand_n (num % 2 ^ 32) l.rand).0 } in
      elim (Option-cases (steal_round injectors workers num 0 start num drawn)) [
        | inl e ↦ rw (e, steal_locked) (pop_shared-Paid (release_lock injectors workers drawn))
        | inr (l', e) ↦
            rw (e, steal_locked)
              (omega (
                arith,
                steal_round-held injectors workers f num 0 start num drawn l' e,
                pop_own-Paid (release_lock injectors workers l'),
              ))
      ]

  lock_taken :
      (l : LocalQueue injectors workers)
      → l.stealing ≡ true
      → try_lock injectors workers l ≡ (l, false)
  unfolding try_lock
  lock_taken l e = rw e

  lock_free :
      (l : LocalQueue injectors workers)
      → l.stealing ≡ false
      → try_lock injectors workers l ≡ (record l { stealing = true }, true)
  unfolding try_lock
  lock_free l e = rw e

  if_locked-Paid :
      (p : LocalQueue injectors workers × Bool)
      → Paid (held injectors workers f p.0) (if_locked injectors workers p)
  unfolding if_locked
  if_locked-Paid (l, true) = steal_locked-Paid l
  if_locked-Paid (l, false) = pop_shared-Paid l

  try_lock-held :
      (l : LocalQueue injectors workers)
      → held injectors workers f (try_lock injectors workers l).0 ≡ held injectors workers f l
  unfolding held
  try_lock-held l = elim (Bool-cases l.stealing) [
    | inl locked ↦ rw (lock_taken l locked) refl
    | inr free ↦ rw (lock_free l free) refl
  ]

  steal_or_share-Paid :
      (l : LocalQueue injectors workers)
      → Paid (held injectors workers f l) (steal_or_share injectors workers l)
  unfolding steal_or_share
  steal_or_share-Paid l =
      omega (arith, if_locked-Paid (try_lock injectors workers l), try_lock-held l)

  pop_local-Paid :
      (l : LocalQueue injectors workers)
      → Paid (held injectors workers f l) (pop_local injectors workers l)
  unfolding pop_local
  pop_local-Paid l = elim (Option-cases (pop_own injectors workers l).1) [
    | inl e ↦
        rw (e, pop_local)
          (omega
            (arith, steal_or_share-Paid (pop_own injectors workers l).0, rw e at (pop_own-Paid l)))
    | inr (x, e) ↦ rw (e, pop_local) (pop_own-Paid l)
  ]

  pop_by-Paid :
      (tick : ℕ) (l : LocalQueue injectors workers)
      → Paid (held injectors workers f l) (pop_by injectors workers tick l)
  unfolding pop_by
  pop_by-Paid tick l = elim (Bool-cases (tick % 61 == 0)) [
    | inr local ↦ rw (local, pop_by) (pop_local-Paid l)
    | inl shared ↦ elim (Option-cases (pop_shared injectors workers l).1) [
      | inl e ↦
          rw (shared, pop_by)
            (rw e (
              omega (
                arith,
                pop_local-Paid (pop_shared injectors workers l).0,
                rw e at (pop_shared-Paid l),
              )))
      | inr (x, e) ↦ rw (shared, pop_by) (rw e (pop_shared-Paid l))
    ]
  ]

  next_tick-held :
      (l : LocalQueue injectors workers)
      → held injectors workers f (next_tick injectors workers l).0 ≡ held injectors workers f l
  unfolding next_tick held
  next_tick-held l = elim (Bool-cases (l.tick == u32_max)) [ inl e ↦ rw e refl | inr e ↦ rw e refl ]

  -- Taking an item out, wherever it is found, takes that item and no other out of what all queues
  -- together hold: every weight of items falls by its weight, and stays where none is returned.
  pub pop_front-Paid :
      (l : LocalQueue injectors workers)
      → Paid (held injectors workers f l) (pop_front injectors workers l)
  unfolding pop_front
  pop_front-Paid l =
      let (ticked, tick) = next_tick injectors workers l in
      omega (arith, pop_by-Paid tick ticked, next_tick-held l)
