-- ===== src/Queue/Counted.antt =====
-- The number that the shared queue keeps of its items, and what depends on it.
use open_coroutine.Base.{
  ℕ, zero, suc, ◌+◌, ◌%◌, ◌==◌, ◌≡◌, ◌<◌, refl, ap, ◌∙◌, List, [], ◌∷◌, ◌++◌, some, length,
  length-append, Bool-cases, inl, inr, arith, u64_max, u32_max,
}
use open_coroutine.Queue.Deques.{Injectors, Workers}
use open_coroutine.Queue.Rand.{FastRand}
use open_coroutine.Queue.Steal.{
  Shared, LocalQueue, is_empty, push, pop, steal_shared, next_tick, pop_by, pop_front, local_queue,
}

module _ {T : Type 0} (injectors : Injectors T) (workers : Workers T) where
  abbrev pub waiting : Shared injectors workers → List T
  waiting g = injectors.waiting g.shared_queue

  abbrev pub IsCounted : Shared injectors workers → Type 0
  IsCounted g = g.len ≡ length (waiting g)

  -- An item pushed to the shared queue waits behind all others, and is counted.
  pub push-IsCounted :
      (x : T) (g : Shared injectors workers)
      → IsCounted g
      → (waiting (push injectors workers x g) ≡ waiting g ++ x ∷ [])
        × IsCounted (push injectors workers x g)
  unfolding push
  push-IsCounted x g c =
      let behind = injectors.push_behind x g.shared_queue in
      (behind, omega (arith, c, ap length behind, length-append (waiting g) (x ∷ [])))

  pop_loaded :
      (x : T) (xs : List T) (g : Shared injectors workers)
      → IsCounted g
      → waiting g ≡ x ∷ xs
      → pop injectors workers g ≡ steal_shared injectors workers 1 g
  unfolding pop is_empty
  pop_loaded x xs g c e =
      let loaded : g.len ≡ suc (length xs) = c ∙ ap length e in rw loaded (ground arith)

  -- A shared queue that counts its items hands out the one that waits longest, and keeps the others
  -- in their order, and their number.
  pub pop-IsCounted :
      (x : T) (xs : List T) (g : Shared injectors workers)
      → IsCounted g
      → waiting g ≡ x ∷ xs
      → ((pop injectors workers g).1 ≡ some x)
        × (waiting (pop injectors workers g).0 ≡ xs)
        × IsCounted (pop injectors workers g).0
  unfolding steal_shared
  pop-IsCounted x xs g c e =
      let (first, rest) = injectors.steal_first x xs g.shared_queue e in
      let loaded : g.len ≡ suc (length xs) = c ∙ ap length e in
      rw (pop_loaded x xs g c e, first, steal_shared)
        (refl, rest, omega (arith, loaded, ap length rest))

  next_tick_shared :
      (l : LocalQueue injectors workers) → (next_tick injectors workers l).0.shared ≡ l.shared
  unfolding next_tick
  next_tick_shared l = elim (Bool-cases (l.tick == u32_max)) [
    | inl e ↦ rw e refl
    | inr e ↦ rw e refl
  ]

  pop_by_turn :
      (x : T) (tick : ℕ) (l : LocalQueue injectors workers)
      → tick % 61 ≡ 0
      → (pop injectors workers l.shared).1 ≡ some x
      → (pop_by injectors workers tick l).1 ≡ some x
  unfolding pop_by
  pop_by_turn x tick l turn e = rw (turn, pop_by) (rw e e)

  -- Every 61st time the item that waits longest in the shared queue comes first, whatever the local
  -- queue holds: the shared queue, if it counts its items, is not passed over for ever.
  pub pop_front-pop :
      (x : T) (xs : List T) (l : LocalQueue injectors workers)
      → IsCounted l.shared
      → waiting l.shared ≡ x ∷ xs
      → (next_tick injectors workers l).1 % 61 ≡ 0
      → (pop_front injectors workers l).1 ≡ some x
  unfolding pop_front
  pop_front-pop x xs l c e turn =
      pop_by_turn x (next_tick injectors workers l).1 (next_tick injectors workers l).0 turn
        (rw (next_tick_shared l) (pop-IsCounted x xs l.shared c e).0)

  -- A worker's number lies below the number of workers, and the next call hands out the next number
  -- until the counter reaches the largest `usize`.
  pub local_queue-bounds :
      (num : ℕ) (g : Shared injectors workers)
      → 0 < num
      → g.index < u64_max
      → (rand : FastRand) × ((local_queue injectors workers num g).1 ≡ some (g.index % num, rand))
        × (g.index % num < num)
        × ((local_queue injectors workers num g).0.index ≡ g.index + 1)
  unfolding local_queue
  local_queue-bounds (suc m) g p below = (_, refl, omega arith, ground arith)
  local_queue-bounds zero g p below = absurd (omega arith)
