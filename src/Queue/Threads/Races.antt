-- ===== src/Queue/Threads/Races.antt =====
-- Calls that interleave: `len` is read and written in two accesses, so a count may be lost.
use mathlib.Core.Path.{subst}
use open_coroutine.Base.{
  ℕ, zero, suc, ◌+◌, ◌-◌, ◌≤◌, ◌<◌, ◌≡◌, refl, sym, ap, ◌∙◌, ◌==◌, List, [], ◌∷◌, ◌++◌, Option,
  none, some, false, length, length-append, All, arith, u64_max, List-cases, inl, inr,
}
use open_coroutine.Queue.Deques.{Injectors, Workers}
use open_coroutine.Queue.Steal.{Shared, pop}
use open_coroutine.Queue.Counted.{waiting, IsCounted}
use open_coroutine.Queue.Threads.Defs.{
  idle, Thread, Move, calls_push, calls_pop, runs, access, move, moves,
}
use open_coroutine.Queue.Threads.Alone.{moves-append}
use open_coroutine.Queue.Threads.Serial.{
  Call, popping, serially, over, steps, IsIdle, serially-steps, pop_zero, pop_success, counted_up,
}

-- The first two threads push at once: both read the number before either writes it.
abbrev pub race : {T : Type 0} → T → T → List (Move T)
race x y =
    calls_push 0 x ∷ calls_push 1 y ∷ runs 0 ∷ runs 1 ∷ runs 0 ∷ runs 1 ∷ runs 0 ∷ runs 1 ∷ []

-- The first thread pops, so many times.
unfoldable pub pops_of : {T : Type 0} → ℕ → List (Call T)
pops_of zero = []
pops_of (suc n) = popping 0 ∷ pops_of n

length-pops_of : (T : Type 0) (n : ℕ) → length (pops_of {T = T} n) ≡ n
unfolding pops_of
length-pops_of T zero = refl
length-pops_of T (suc n) = ap suc (length-pops_of T n)

module _ {T : Type 0} (injectors : Injectors T) (workers : Workers T) where
  -- Both items are pushed, and counted as one.
  abbrev raced : T → T → Shared injectors workers → Shared injectors workers
  raced x y g = record g {
    shared_queue = injectors.push y (injectors.push x g.shared_queue);
    len = g.len + 1;
  }

  race-raced :
      (x y : T) (got got' : List (Option T)) (rest : List (Thread T)) (g : Shared injectors workers)
      → g.len < u64_max
      → moves injectors (race x y) (
          over injectors workers g
            (record { phase = idle; got = got } ∷ record { phase = idle; got = got' } ∷ rest))
        ≡ over injectors workers
            (raced x y g)
            (record { phase = idle; got = got } ∷ record { phase = idle; got = got' } ∷ rest)
  unfolding moves move access
  race-raced x y got got' rest g small =
      ap
        (λ (n : ℕ).
          over injectors workers
            (record g {
              shared_queue = injectors.push y (injectors.push x g.shared_queue);
              len = n;
            })
            (record { phase = idle; got = got } ∷ record { phase = idle; got = got' } ∷ rest))
        (counted_up injectors workers g.len small)

  race-idle :
      (x y : T) (t u : Thread T) (rest : List (Thread T)) (g : Shared injectors workers)
      → t.phase ≡ idle
      → u.phase ≡ idle
      → g.len < u64_max
      → moves injectors (race x y) (over injectors workers g (t ∷ u ∷ rest))
        ≡ over injectors workers (raced x y g) (t ∷ u ∷ rest)
  race-idle x y t u rest g e f small =
      let first : record { phase = idle; got = t.got } ≡ t =
        ap (λ p. record { phase = p; got = t.got }) (sym e) in
      let second : record { phase = idle; got = u.got } ≡ u =
        ap (λ p. record { phase = p; got = u.got }) (sym f) in
      subst
        (λ (v : Thread T × Thread T).
          moves injectors (race x y) (over injectors workers g (v.0 ∷ v.1 ∷ rest))
          ≡ over injectors workers (raced x y g) (v.0 ∷ v.1 ∷ rest))
        (λ i. (first i, second i)) (race-raced x y t.got u.got rest g small)

  raced-length :
      (x y : T) (g : Shared injectors workers)
      → length (waiting injectors workers (raced x y g)) ≡ length (waiting injectors workers g) + 2
  raced-length x y g =
      let first = injectors.push_behind x g.shared_queue in
      let second = injectors.push_behind y (injectors.push x g.shared_queue) in
      omega (
        arith,
        ap length first,
        ap length second,
        length-append (injectors.waiting g.shared_queue) (x ∷ []),
        length-append (injectors.waiting (injectors.push x g.shared_queue)) (y ∷ []),
      )

  popped_once :
      (k : ℕ) (g : Shared injectors workers) (t : Thread T) (ts : List (Thread T))
      → steps injectors workers (pops_of (suc k)) g (t ∷ ts)
        ≡ steps injectors workers
            (pops_of k)
            (pop injectors workers g).0
            (record { phase = idle; got = (pop injectors workers g).1 ∷ t.got } ∷ ts)
  unfolding pops_of steps
  popped_once k g t ts = refl

  -- A queue whose number falls short of its items by so many keeps these when it is drained.
  drained :
      (k short : ℕ) (g : Shared injectors workers) (t : Thread T) (ts : List (Thread T))
      → g.len ≡ k
      → length (waiting injectors workers g) ≡ k + short
      → ((steps injectors workers (pops_of k) g (t ∷ ts)).0.len ≡ 0)
        × (length (waiting injectors workers (steps injectors workers (pops_of k) g (t ∷ ts)).0)
            ≡ short)
  unfolding pops_of steps
  drained zero short g t ts e l = (e, omega (arith, l))
  drained (suc k) short g t ts e l = elim (List-cases (injectors.waiting g.shared_queue)) [
    | inl nothing ↦ absurd (omega (arith, l, ap length nothing))
    | inr (x, xs, waits) ↦
        let (first, rest) = injectors.steal_first x xs g.shared_queue waits in
        let counted : (g.len == 0) ≡ false = rw e (ground arith) in
        let popped = record g {
          shared_queue = (injectors.steal g.shared_queue).0;
          len = g.len - 1;
        } in
        rw (popped_once k g t ts, pop_success injectors workers x g counted first)
          (drained k short popped (record { phase = idle; got = some x ∷ t.got }) ts
            (omega (arith, e)) (omega (arith, l, ap length waits, ap length rest)))
  ]

  -- Two threads push at once where both read the number of the items before either writes it: the
  -- number then falls short by one. Once the first thread has popped as often as the number says, an
  -- item still waits, and `pop` finds none whoever calls it.
  pub race_strands :
      (x y : T) (g : Shared injectors workers) (t u : Thread T) (rest : List (Thread T))
      → IsCounted injectors workers g
      → All (IsIdle injectors workers) (t ∷ u ∷ rest)
      → g.len + 2 + g.len ≤ u64_max
      → (g' : Shared injectors workers) × (ts : List (Thread T)) × (moves injectors
            (race x y ++ serially injectors workers (pops_of (g.len + 1)))
            (over injectors workers g (t ∷ u ∷ rest))
          ≡ over injectors workers g' ts)
        × (length (waiting injectors workers g') ≡ 1)
        × (pop injectors workers g' ≡ (g', none))
  race_strands x y g t u rest counted idles small =
      let ts = t ∷ u ∷ rest in
      let g1 = raced x y g in
      let pops = pops_of (g.len + 1) in
      let end = steps injectors workers pops g1 ts in
      let (none_left, one_left) =
        drained (g.len + 1) 1 g1 t (u ∷ rest) refl (omega (arith, raced-length x y g, counted)) in
      (
        end.0,
        end.1,
        moves-append injectors (race x y) (serially injectors workers pops)
              (over injectors workers g ts)
            ∙ ap (moves injectors (serially injectors workers pops))
                (race-idle x y t u rest g idles.0 idles.1.0 (omega arith))
            ∙ serially-steps injectors workers pops g1 ts idles
                (omega (arith, length-pops_of T (g.len + 1))),
        one_left,
        pop_zero injectors workers end.0 none_left,
      )

  abbrev pub pop_race : List (Move T)
  pop_race =
      calls_pop 0
      ∷ calls_pop 1
      ∷ runs 0
      ∷ runs 1
      ∷ runs 0
      ∷ runs 1
      ∷ runs 0
      ∷ runs 0
      ∷ runs 1
      ∷ runs 1
      ∷ []

  -- Where two items wait and one is counted, as while the other is being pushed, two threads that pop
  -- at once may take both, and the number then wraps round to the largest `usize`.
  pub pop_race_wraps :
      (x y : T) (xs : List T) (got got' : List (Option T)) (rest : List (Thread T))
      (g : Shared injectors workers)
      → g.len ≡ 1
      → waiting injectors workers g ≡ x ∷ y ∷ xs
      → (g' : Shared injectors workers) × (moves injectors pop_race (
            over injectors workers g
              (record { phase = idle; got = got } ∷ record { phase = idle; got = got' } ∷ rest))
          ≡ over injectors workers g' (
              record { phase = idle; got = some x ∷ got }
              ∷ record { phase = idle; got = some y ∷ got' }
              ∷ rest))
        × (waiting injectors workers g' ≡ xs)
        × (g'.len ≡ u64_max)
  unfolding moves move access
  pop_race_wraps x y xs got got' rest g one waits =
      let (first, others) = injectors.steal_first x (y ∷ xs) g.shared_queue waits in
      let left = (injectors.steal g.shared_queue).0 in
      let (second, last) = injectors.steal_first y xs left others in
      (
        record g { shared_queue = (injectors.steal left).0; len = u64_max },
        rw one (rw (first, access) (rw (second, access))),
        last,
        refl,
      )
