-- ===== src/Queue/Threads/Owed.antt =====
-- However the threads interleave, no item is lost or doubled.
use open_coroutine.Base.{
  ℕ, ◌+◌, ◌≡◌, refl, ap, ◌==◌, List, [], ◌∷◌, Option, none, some, get_elem?, total, total-append,
  total-set_nth, arith, Option-cases, Bool-cases, List-cases, inl, inr,
}
use open_coroutine.Queue.Deques.{Injectors}
use open_coroutine.Queue.Threads.Defs.{
  Phase, idle, pushes, pushed, adds, pops, steals, took, subtracts, Thread, Move, calls_push,
  calls_pop, runs, Racing, enter, becomes, access, thread_of, taken_by, move, moves,
}

module _ {T : Type 0} (injectors : Injectors T) (f : T → ℕ) where
  abbrev pub returned : Option T → ℕ
  returned none = 0
  returned (some x) = f x

  -- The item that a thread has in its hands within a call.
  abbrev pub in_hand : Phase T → ℕ
  in_hand (pushes x) = f x
  in_hand (took x) = f x
  in_hand (subtracts x n) = f x
  in_hand _ = 0

  abbrev pub with_thread : Thread T → ℕ
  with_thread t = in_hand t.phase + total returned t.got

  -- What waits in the shared queue, is in a thread's hands, or was returned by `pop`.
  unfoldable pub owed : Racing injectors → ℕ
  owed r = total f (injectors.waiting r.shared_queue) + total with_thread r.threads

  -- What a move puts into a thread's hands: the item of a `push` that is called by an idle thread.
  abbrev pub entering : Phase T → Phase T → ℕ
  entering call idle = in_hand call
  entering call p = 0

  abbrev pub given_to : Move T → Option (Thread T) → ℕ
  given_to (calls_push i x) (some t) = entering (pushes x) t.phase
  given_to m t = 0

  abbrev pub given : Move T → Racing injectors → ℕ
  given m r = given_to m (get_elem? r.threads (thread_of injectors m))

  unfoldable pub all_given : List (Move T) → Racing injectors → ℕ
  all_given [] r = 0
  all_given (m ∷ ms) r = given m r + all_given ms (move injectors m r)

  -- A thread's place changes: the sum of all threads changes by as much.
  becomes-total :
      (i : ℕ) (t : Thread T) (p : Phase T) (got : List (Option T)) (r : Racing injectors)
      → get_elem? r.threads i ≡ some t
      → total with_thread (becomes injectors i p got r).threads + with_thread t
        ≡ in_hand p + total returned got + total with_thread r.threads
  becomes-total i t p got r e =
      total-set_nth with_thread r.threads i t (record { phase = p; got = got }) e

  entered : (call p : Phase T) → in_hand (enter injectors call p) ≡ entering call p + in_hand p
  entered call idle = omega arith
  entered call (pushes x) = omega arith
  entered call pushed = omega arith
  entered call (adds n) = omega arith
  entered call pops = omega arith
  entered call steals = omega arith
  entered call (took x) = omega arith
  entered call (subtracts x n) = omega arith

  push_total :
      (x : T) (q : injectors.Injector)
      → total f (injectors.waiting (injectors.push x q)) ≡ f x + total f (injectors.waiting q)
  push_total x q = omega (
    arith,
    ap (total f) (injectors.push_behind x q),
    total-append f (injectors.waiting q) (x ∷ []),
  )

  access-owed :
      (i : ℕ) (p : Phase T) (got : List (Option T)) (r : Racing injectors)
      → get_elem? r.threads i ≡ some (record { phase = p; got = got })
      → owed (access injectors i p got r) ≡ owed r
  unfolding access owed
  access-owed i idle got r e = refl
  access-owed i (pushes x) got r e = omega (
    arith,
    becomes-total i (record { phase = pushes x; got = got }) pushed got r e,
    push_total x r.shared_queue,
  )
  access-owed i pushed got r e =
      omega (arith, becomes-total i (record { phase = pushed; got = got }) (adds r.len) got r e)
  access-owed i (adds n) got r e =
      omega (arith, becomes-total i (record { phase = adds n; got = got }) idle got r e)
  access-owed i pops got r e = elim (Bool-cases (r.len == 0)) [
    | inl z ↦
        rw z (
          omega (arith, becomes-total i (record { phase = pops; got = got }) idle (none ∷ got) r e))
    | inr nz ↦
        rw nz (omega (arith, becomes-total i (record { phase = pops; got = got }) steals got r e))
  ]
  access-owed i steals got r e = elim (List-cases (injectors.waiting r.shared_queue)) [
    | inl nothing ↦
        let (failed, rest) = injectors.steal_none r.shared_queue nothing in
        let there = becomes-total i (record { phase = steals; got = got }) idle (none ∷ got) r e in
        rw (failed, access) (omega (arith, there, ap (total f) rest, ap (total f) nothing))
    | inr (x, xs, waits) ↦
        let (first, rest) = injectors.steal_first x xs r.shared_queue waits in
        let there = becomes-total i (record { phase = steals; got = got }) (took x) got r e in
        rw (first, access) (omega (arith, there, ap (total f) rest, ap (total f) waits))
  ]
  access-owed i (took x) got r e =
      omega
        (arith, becomes-total i (record { phase = took x; got = got }) (subtracts x r.len) got r e)
  access-owed i (subtracts x n) got r e =
      omega (
        arith,
        becomes-total i (record { phase = subtracts x n; got = got }) idle (some x ∷ got) r e,
      )

  taken-owed :
      (m : Move T) (t : Thread T) (r : Racing injectors)
      → get_elem? r.threads (thread_of injectors m) ≡ some t
      → owed (taken_by injectors m t r) ≡ given_to m (some t) + owed r
  unfolding owed
  taken-owed (calls_push i x) t r e = omega (
    arith,
    becomes-total i t (enter injectors (pushes x) t.phase) t.got r e,
    entered (pushes x) t.phase,
  )
  taken-owed (calls_pop i) t r e = omega (
    arith,
    becomes-total i t (enter injectors pops t.phase) t.got r e,
    entered pops t.phase,
    nothing_given t.phase,
  )
    where
      nothing_given : (p : Phase T) → entering pops p ≡ 0
      nothing_given idle = refl
      nothing_given p = refl
  taken-owed (runs i) t r e = omega (arith, access-owed i t.phase t.got r e)

  nobody : (m : Move T) → given_to m none ≡ 0
  nobody (calls_push i x) = refl
  nobody m = refl

  move-owed : (m : Move T) (r : Racing injectors) → owed (move injectors m r) ≡ given m r + owed r
  unfolding move
  move-owed m r = elim (Option-cases (get_elem? r.threads (thread_of injectors m))) [
    | inl e ↦ rw (e, move) (omega (arith, nobody m))
    | inr (t, e) ↦ rw (e, move) (taken-owed m t r e)
  ]

  -- However the accesses of the threads interleave, the items that wait in the shared queue, are in a
  -- thread's hands or were returned by `pop` are those that there were before and those given to
  -- `push` since: none is lost and none doubled, by whatever weight they are counted.
  pub moves-owed :
      (ms : List (Move T)) (r : Racing injectors)
      → owed (moves injectors ms r) ≡ all_given ms r + owed r
  unfolding moves all_given
  moves-owed [] r = omega arith
  moves-owed (m ∷ ms) r = omega (arith, moves-owed ms (move injectors m r), move-owed m r)
