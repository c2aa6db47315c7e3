-- ===== src/Queue/Threads/Alone.antt =====
-- A thread that no other interrupts in `push` or `pop` does what the call does as one step.
use open_coroutine.Base.{
  ℕ, ◌≡◌, refl, ap, ◌==◌, List, [], ◌∷◌, ◌++◌, Option, none, some, get_elem?, false,
  get_elem?-set_nth, set_nth_twice,
}
use open_coroutine.Queue.Deques.{Injectors, success, empty}
use open_coroutine.Queue.Threads.Defs.{
  Phase, idle, pushes, pushed, adds, pops, steals, took, subtracts, Thread, Move, calls_push,
  calls_pop, runs, Racing, becomes, access, incremented, decremented, move, moves,
}

module _ {T : Type 0} (injectors : Injectors T) where
  -- A thread at a place.
  abbrev pub Stands : ℕ → Phase T → List (Option T) → Racing injectors → Type 0
  Stands i p got r = get_elem? r.threads i ≡ some (record { phase = p; got = got })

  pub Stands-becomes :
      (i : ℕ) (p q : Phase T) (got new : List (Option T)) (r : Racing injectors)
      → Stands i p got r
      → Stands i q new (becomes injectors i q new r)
  Stands-becomes i p q got new r e =
      get_elem?-set_nth r.threads i (record { phase = p; got = got })
        (record { phase = q; got = new }) e

  pub becomes_twice :
      (i : ℕ) (p q : Phase T) (got new : List (Option T)) (r : Racing injectors)
      → becomes injectors i q new (becomes injectors i p got r) ≡ becomes injectors i q new r
  becomes_twice i p q got new r =
      ap (λ (l : List (Thread T)). record r { threads = l })
        (set_nth_twice r.threads i (record { phase = p; got = got })
          (record { phase = q; got = new }))

  -- A thread's next access where it stands.
  pub move-runs :
      (i : ℕ) (p : Phase T) (got : List (Option T)) (r : Racing injectors)
      → Stands i p got r
      → move injectors (runs i) r ≡ access injectors i p got r
  unfolding move
  move-runs i p got r e = rw (e, move)

  pub moves-append :
      (ms ns : List (Move T)) (r : Racing injectors)
      → moves injectors (ms ++ ns) r ≡ moves injectors ns (moves injectors ms r)
  unfolding moves
  moves-append [] ns r = refl
  moves-append (m ∷ ms) ns r = moves-append ms ns (move injectors m r)

  pub move-calls_push :
      (i : ℕ) (x : T) (got : List (Option T)) (r : Racing injectors)
      → Stands i idle got r
      → move injectors (calls_push i x) r ≡ becomes injectors i (pushes x) got r
  unfolding move
  move-calls_push i x got r e = rw (e, move)

  pub move-calls_pop :
      (i : ℕ) (got : List (Option T)) (r : Racing injectors)
      → Stands i idle got r
      → move injectors (calls_pop i) r ≡ becomes injectors i pops got r
  unfolding move
  move-calls_pop i got r e = rw (e, move)

  -- The accesses of a thread that runs on alone, which are at most four.
  abbrev pub runs_on : ℕ → List (Move T)
  runs_on i = runs i ∷ runs i ∷ runs i ∷ runs i ∷ []

  pub moves-cons :
      (m : Move T) (ms : List (Move T)) (r s : Racing injectors)
      → move injectors m r ≡ s
      → moves injectors (m ∷ ms) r ≡ moves injectors ms s
  unfolding moves
  moves-cons m ms r s e = rw e

  -- One more access of a thread where it stands.
  pub moves-runs :
      (i : ℕ) (p : Phase T) (got : List (Option T)) (ms : List (Move T)) (r : Racing injectors)
      → Stands i p got r
      → moves injectors (runs i ∷ ms) r ≡ moves injectors ms (access injectors i p got r)
  moves-runs i p got ms r e = moves-cons (runs i) ms r _ (move-runs i p got r e)

  -- An idle thread stays as it is.
  rests :
      (i : ℕ) (got : List (Option T)) (r : Racing injectors)
      → Stands i idle got r
      → move injectors (runs i) r ≡ r
  unfolding access
  rests i got r e = move-runs i idle got r e

  access_zero :
      (i : ℕ) (got : List (Option T)) (r : Racing injectors)
      → r.len ≡ 0
      → access injectors i pops got r ≡ becomes injectors i idle (none ∷ got) r
  unfolding access
  access_zero i got r e = rw e

  access_counted :
      (i : ℕ) (got : List (Option T)) (r : Racing injectors)
      → (r.len == 0) ≡ false
      → access injectors i pops got r ≡ becomes injectors i steals got r
  unfolding access
  access_counted i got r e = rw e

  access_success :
      (i : ℕ) (x : T) (got : List (Option T)) (r : Racing injectors)
      → (injectors.steal r.shared_queue).1 ≡ success x
      → access injectors i steals got r
        ≡ becomes injectors i
            (took x)
            got
            (record r { shared_queue = (injectors.steal r.shared_queue).0 })
  unfolding access
  access_success i x got r e = rw (e, access)

  access-empty :
      (i : ℕ) (got : List (Option T)) (r : Racing injectors)
      → (injectors.steal r.shared_queue).1 ≡ empty
      → access injectors i steals got r
        ≡ becomes injectors i idle
            (none ∷ got)
            (record r { shared_queue = (injectors.steal r.shared_queue).0 })
  unfolding access
  access-empty i got r e = rw (e, access)

  module _ (i : ℕ) (got : List (Option T)) (r : Racing injectors)
      (at_rest : Stands i idle got r) where
    pub push_steps :
        (x : T)
        → moves injectors (calls_push i x ∷ runs_on i) r
          ≡ becomes injectors i idle got
              (record r { shared_queue = injectors.push x r.shared_queue; len = incremented r.len })
    unfolding access moves
    push_steps x =
        let q = injectors.push x r.shared_queue in
        let r1 = becomes injectors i (pushes x) got r in
        let r2 = becomes injectors i pushed got (record r1 { shared_queue = q }) in
        let r3 = becomes injectors i (adds r.len) got r2 in
        let r4 = becomes injectors i idle got (record r3 { len = incremented r.len }) in
        let s1 = Stands-becomes i idle (pushes x) got got r at_rest in
        let s2 = Stands-becomes i (pushes x) pushed got got (record r1 { shared_queue = q }) s1 in
        let s3 = Stands-becomes i pushed (adds r.len) got got r2 s2 in
        let s4 =
          Stands-becomes i (adds r.len) idle got got (record r3 { len = incremented r.len }) s3 in
        rw
          (
            move-calls_push i x got r at_rest,
            move-runs i (pushes x) got r1 s1,
            move-runs i pushed got r2 s2,
            move-runs i (adds r.len) got r3 s3,
            move-runs i idle got r4 s4,
          )
          (simp set_nth_twice)

    -- A `pop` that finds the number 0 ends at once.
    pub pop_steps_zero :
        r.len ≡ 0
        → moves injectors (calls_pop i ∷ runs_on i) r ≡ becomes injectors i idle (none ∷ got) r
    unfolding moves
    pop_steps_zero e =
        let r1 = becomes injectors i pops got r in
        let r2 = becomes injectors i idle (none ∷ got) r1 in
        let s1 = Stands-becomes i idle pops got got r at_rest in
        let s2 = Stands-becomes i pops idle got (none ∷ got) r1 s1 in
        rw
          (
            move-calls_pop i got r at_rest,
            move-runs i pops got r1 s1,
            access_zero i got r1 e,
            rests i (none ∷ got) r2 s2,
            rests i (none ∷ got) r2 s2,
            rests i (none ∷ got) r2 s2,
          )
          (simp set_nth_twice)

    pub pop_steps_empty :
        (r.len == 0) ≡ false
        → (injectors.steal r.shared_queue).1 ≡ empty
        → moves injectors (calls_pop i ∷ runs_on i) r
          ≡ becomes injectors i idle
              (none ∷ got)
              (record r { shared_queue = (injectors.steal r.shared_queue).0 })
    unfolding moves
    pop_steps_empty e failed =
        let left = (injectors.steal r.shared_queue).0 in
        let r1 = becomes injectors i pops got r in
        let r2 = becomes injectors i steals got r1 in
        let r3 = becomes injectors i idle (none ∷ got) (record r2 { shared_queue = left }) in
        let s1 = Stands-becomes i idle pops got got r at_rest in
        let s2 = Stands-becomes i pops steals got got r1 s1 in
        let s3 =
          Stands-becomes i steals idle got (none ∷ got) (record r2 { shared_queue = left }) s2 in
        rw
          (
            move-calls_pop i got r at_rest,
            move-runs i pops got r1 s1,
            access_counted i got r1 e,
            move-runs i steals got r2 s2,
            access-empty i got r2 failed,
            rests i (none ∷ got) r3 s3,
            rests i (none ∷ got) r3 s3,
          )
          (simp set_nth_twice)

    pub pop_steps_first :
        (x : T)
        → (r.len == 0) ≡ false
        → (injectors.steal r.shared_queue).1 ≡ success x
        → moves injectors (calls_pop i ∷ runs_on i) r
          ≡ becomes injectors i idle (some x ∷ got) (record r {
            shared_queue = (injectors.steal r.shared_queue).0;
            len = decremented r.len;
          })
    unfolding moves access
    pop_steps_first x e first =
        let left = (injectors.steal r.shared_queue).0 in
        let r1 = becomes injectors i pops got r in
        let r2 = becomes injectors i steals got r1 in
        let r3 = becomes injectors i (took x) got (record r2 { shared_queue = left }) in
        let r4 = becomes injectors i (subtracts x r.len) got r3 in
        let s1 = Stands-becomes i idle pops got got r at_rest in
        let s2 = Stands-becomes i pops steals got got r1 s1 in
        let s3 = Stands-becomes i steals (took x) got got (record r2 { shared_queue = left }) s2 in
        let s4 = Stands-becomes i (took x) (subtracts x r.len) got got r3 s3 in
        rw
          (
            move-calls_pop i got r at_rest,
            move-runs i pops got r1 s1,
            access_counted i got r1 e,
            move-runs i steals got r2 s2,
            access_success i x got r2 first,
            move-runs i (took x) got r3 s3,
            move-runs i (subtracts x r.len) got r4 s4,
          )
          (simp set_nth_twice)
