-- ===== src/Queue/Moves.antt =====
-- Handing over and stealing move items between the queues and lose none.
use open_coroutine.Base.{
  ℕ, zero, suc, ◌+◌, ◌-◌, ◌%◌, ◌==◌, ◌≡◌, refl, sym, ltb, inl, inr, [], ◌∷◌, Option, none, some,
  some-injective, length, get_elem?, set_nth, total, total-append, total-set_nth, List-cases,
  Option-cases, Bool-cases, arith,
}
use open_coroutine.Queue.Deques.{Injectors, Workers}
use open_coroutine.Queue.Steal.{
  Shared, LocalQueue, push, spare_capacity, hand_over, steal_from, steal_before, steal_behind,
  steal_at, steal_round,
}

module _ {T : Type 0} (injectors : Injectors T) (workers : Workers T) (f : T → ℕ) where
  abbrev pub held_by : workers.Worker → ℕ
  held_by w = total f (workers.items w)

  -- What the shared queue and all workers hold.
  unfoldable pub held : LocalQueue injectors workers → ℕ
  held l =
      total held_by l.before
      + held_by l.queue
      + total held_by l.behind
      + total f (injectors.waiting l.shared.shared_queue)

  abbrev pub handed : Option T → ℕ
  handed none = 0
  handed (some x) = f x

  pub push_held :
      (x : T) (g : Shared injectors workers)
      → total f (injectors.waiting (push injectors workers x g).shared_queue)
        ≡ f x + total f (injectors.waiting g.shared_queue)
  unfolding push
  push_held x g =
      rw (injectors.push_behind x g.shared_queue)
        (omega (arith, total-append f (injectors.waiting g.shared_queue) (x ∷ [])))

  pub pop_worker :
      (w : workers.Worker) → held_by (workers.pop w).0 + handed (workers.pop w).1 ≡ held_by w
  pop_worker w = elim (List-cases (workers.items w)) [
    | inl e ↦ let (nothing, same) = workers.pop_none w e in rw (nothing, same) (omega arith)
    | inr (x, xs, e) ↦
        let (first, rest, _) = workers.pop_first x xs w e in rw (first, rest, e) (omega arith)
  ]

  pub hand_over-held :
      (n : ℕ) (l : LocalQueue injectors workers) → held (hand_over injectors workers n l) ≡ held l
  unfolding hand_over held
  hand_over-held zero l = refl
  hand_over-held (suc n) l = elim (Option-cases (workers.pop l.queue).1) [
    | inl e ↦
        let kept = record l { queue = (workers.pop l.queue).0 } in
        rw (e, hand_over) (omega (arith, hand_over-held n kept, rw e at (pop_worker l.queue)))
    | inr (x, e) ↦
        let moved = record l {
          queue = (workers.pop l.queue).0;
          shared = push injectors workers x l.shared;
        } in
        rw (e, hand_over)
          (omega
            (arith, hand_over-held n moved, push_held x l.shared, rw e at (pop_worker l.queue)))
  ]

  no_steal : (p : workers.Worker × workers.Worker) → none ≡ some p → ⊥
  no_steal p e = ground arith

  steal_from-held :
      (another queue : workers.Worker) (p : workers.Worker × workers.Worker)
      → steal_from injectors workers another queue ≡ some p
      → held_by p.0 + held_by p.1 ≡ held_by another + held_by queue
  unfolding steal_from
  steal_from-held another queue p e = elim (Bool-cases (length (workers.items another) == 0)) [
    | inl none_there ↦ absurd (no_steal p (rw none_there at e))
    | inr there ↦ elim (Bool-cases (spare_capacity injectors workers queue == 0)) [
      | inl full ↦ absurd (no_steal p (rw (there, full) at e))
      | inr room ↦
          let (x, moved, from_is, to_is, _, _) =
            workers.steal_moves _ another queue p.0 p.1 (rw (there, room) at e) in
          rw (from_is, to_is)
            (omega (
              arith,
              total-append f (x ∷ moved) (workers.items p.0),
              total-append f (workers.items queue) (x ∷ moved),
            ))
    ]
  ]

  nothing : (l : LocalQueue injectors workers) → none ≡ some l → ⊥
  nothing l e = ground arith

  steal_before-held :
      (i : ℕ) (l l' : LocalQueue injectors workers)
      → steal_before injectors workers i l ≡ some l'
      → held l' ≡ held l
  unfolding steal_before held
  steal_before-held i l l' e = elim (Option-cases (get_elem? l.before i)) [
    | inl out ↦ absurd (nothing l' (rw (out, steal_before) at e))
    | inr (w, there) ↦
        let opened = rw (there, steal_before) at e in
        elim (Option-cases (steal_from injectors workers w l.queue)) [
          | inl failed ↦ absurd (nothing l' (rw failed at opened))
          | inr (p, moved) ↦
              let stolen = record l { before = set_nth l.before i p.0; queue = p.1 } in
              let total_before = total-set_nth held_by l.before i w p.0 there in
              rw (sym (some-injective stolen l' (rw moved at opened)))
                (omega (arith, total_before, steal_from-held w l.queue p moved))
        ]
  ]

  steal_behind-held :
      (i : ℕ) (l l' : LocalQueue injectors workers)
      → steal_behind injectors workers i l ≡ some l'
      → held l' ≡ held l
  unfolding steal_behind held
  steal_behind-held i l l' e = elim (Option-cases (get_elem? l.behind i)) [
    | inl out ↦ absurd (nothing l' (rw (out, steal_behind) at e))
    | inr (w, there) ↦
        let opened = rw (there, steal_behind) at e in
        elim (Option-cases (steal_from injectors workers w l.queue)) [
          | inl failed ↦ absurd (nothing l' (rw failed at opened))
          | inr (p, moved) ↦
              let stolen = record l { behind = set_nth l.behind i p.0; queue = p.1 } in
              let total_behind = total-set_nth held_by l.behind i w p.0 there in
              rw (sym (some-injective stolen l' (rw moved at opened)))
                (omega (arith, total_behind, steal_from-held w l.queue p moved))
        ]
  ]

  steal_at-held :
      (i : ℕ) (l l' : LocalQueue injectors workers)
      → steal_at injectors workers i l ≡ some l'
      → held l' ≡ held l
  unfolding steal_at
  steal_at-held i l l' e = elim (Bool-cases (ltb i (length l.before))) [
    | inl lower ↦ steal_before-held i l l' (rw lower at e)
    | inr higher ↦ elim (Bool-cases (i == length l.before)) [
      | inl own ↦ absurd (nothing l' (rw (higher, own) at e))
      | inr other ↦ steal_behind-held (i - length l.before - 1) l l' (rw (higher, other) at e)
    ]
  ]

  pub steal_round-held :
      (n i start num : ℕ) (l l' : LocalQueue injectors workers)
      → steal_round injectors workers n i start num l ≡ some l'
      → held l' ≡ held l
  unfolding steal_round
  steal_round-held zero i start num l l' e = absurd (nothing l' e)
  steal_round-held (suc n) i start num l l' e =
      elim (Option-cases (steal_at injectors workers ((start + i) % num) l)) [
        | inl failed ↦ steal_round-held n (suc i) start num l l' (rw (failed, steal_round) at e)
        | inr (l'', stolen) ↦
            rw (sym (some-injective l'' l' (rw (stolen, steal_round) at e)))
              (steal_at-held ((start + i) % num) l l'' stolen)
      ]
