-- ===== src/Queue/Threads/Fifo.antt =====
-- Calls of `push` and `pop` that do not interrupt one another, against a queue that is a list.
use open_coroutine.Base.{
  ◌+◌, ◌≤◌, ◌≡◌, refl, ap, ◌∙◌, List, [], ◌∷◌, ◌++◌, none, some, get_elem?, length, All, arith,
  u64_max, List-cases, Option-cases, inl, inr,
}
use mathlib.Core.Path.{subst}
use open_coroutine.Queue.Deques.{Injectors, Workers}
use open_coroutine.Queue.Steal.{Shared, is_empty, pop}
use open_coroutine.Queue.Counted.{waiting, IsCounted, push-IsCounted, pop-IsCounted}
use open_coroutine.Queue.Threads.Defs.{Thread, moves}
use open_coroutine.Queue.Threads.Serial.{
  Call, pushing, popping, caller, serially, over, rested, step_by, step, steps, IsIdle,
  serially-steps,
}

module _ {T : Type 0} (injectors : Injectors T) (workers : Workers T) where
  -- A call on a list of items: a push puts its item behind all others, and a pop gives its thread the
  -- first item, or none exactly where there is none.
  abbrev pub served : Call T → Thread T → List T → List (Thread T) → List T × List (Thread T)
  served (pushing i x) t xs ts = (xs ++ x ∷ [], rested injectors workers ts i t.got)
  served (popping i) t [] ts = ([], rested injectors workers ts i (none ∷ t.got))
  served (popping i) t (x ∷ xs) ts = (xs, rested injectors workers ts i (some x ∷ t.got))

  unfoldable pub serve : Call T → List T → List (Thread T) → List T × List (Thread T)
  serve c xs ts = elim (get_elem? ts (caller c)) [ none ↦ (xs, ts) | some t ↦ served c t xs ts ]

  unfoldable pub serve_all : List (Call T) → List T → List (Thread T) → List T × List (Thread T)
  unfolding serve
  serve_all [] xs ts = (xs, ts)
  serve_all (c ∷ cs) xs ts = let next = serve c xs ts in serve_all cs next.0 next.1

  -- The shared queue holds these items and counts them, and the threads are these.
  record Implements (next : Shared injectors workers × List (Thread T))
      (spec : List T × List (Thread T)) : Type 0 where
    items : waiting injectors workers next.0 ≡ spec.0
    threads : next.1 ≡ spec.1
    exact : IsCounted injectors workers next.0

  pop_none :
      (g : Shared injectors workers)
      → IsCounted injectors workers g
      → waiting injectors workers g ≡ []
      → pop injectors workers g ≡ (g, none)
  unfolding pop is_empty
  pop_none g c e = let zero_len : g.len ≡ 0 = c ∙ ap length e in rw zero_len (ground arith)

  serves :
      (c : Call T) (t : Thread T) (g : Shared injectors workers) (ts : List (Thread T))
      → IsCounted injectors workers g
      → Implements
          (step_by injectors workers c t g ts)
          (served c t (waiting injectors workers g) ts)
  serves (pushing i x) t g ts c =
      let (behind, counts) = push-IsCounted injectors workers x g c in
      record { items = behind; threads = refl; exact = counts }
  serves (popping i) t g ts c = elim (List-cases (waiting injectors workers g)) [
    | inl e ↦ rw (pop_none g c e) (rw (e) (record { items = e; threads = refl; exact = c }))
    | inr (x, xs, e) ↦
        let (first, rest, counts) = pop-IsCounted injectors workers x xs g c e in
        rw (e) (record {
          items = rest;
          threads = ap (λ r. rested injectors workers ts i (r ∷ t.got)) first;
          exact = counts;
        })
  ]

  serve-Implements :
      (c : Call T) (g : Shared injectors workers) (ts : List (Thread T))
      → IsCounted injectors workers g
      → Implements (step injectors workers c g ts) (serve c (waiting injectors workers g) ts)
  unfolding step serve
  serve-Implements c g ts counts = elim (Option-cases (get_elem? ts (caller c))) [
    | inl e ↦ rw (e, step, serve) (record { items = refl; threads = refl; exact = counts })
    | inr (t, e) ↦ rw (e, step, serve) (serves c t g ts counts)
  ]

  serve_all-Implements :
      (cs : List (Call T)) (g : Shared injectors workers) (ts : List (Thread T))
      → IsCounted injectors workers g
      → Implements (steps injectors workers cs g ts) (serve_all cs (waiting injectors workers g) ts)
  unfolding steps serve_all
  serve_all-Implements [] g ts counts = record { items = refl; threads = refl; exact = counts }
  serve_all-Implements (c ∷ cs) g ts counts =
      let first = serve-Implements c g ts counts in
      let next = step injectors workers c g ts in
      let rest = serve_all-Implements cs next.0 next.1 first.exact in
      subst
        (λ us.
          Implements (steps injectors workers cs next.0 next.1)
            (serve_all cs (serve c (waiting injectors workers g) ts).0 us))
        first.threads
        (subst
          (λ xs. Implements (steps injectors workers cs next.0 next.1) (serve_all cs xs next.1))
          first.items rest)

  -- Threads that are idle at first, on a shared queue that counts its items, and whose calls of `push`
  -- and `pop` follow one another access by access, in any order and with none of them interrupted:
  -- if the number cannot overflow, the accesses serve the calls as a queue does that is a list. A
  -- push puts its item behind all others, a pop gets the first one, or none exactly where there is
  -- none, and behind them the number is again that of the items.
  pub serially-serve_all :
      (cs : List (Call T)) (g : Shared injectors workers) (ts : List (Thread T))
      → IsCounted injectors workers g
      → All (IsIdle injectors workers) ts
      → g.len + length cs ≤ u64_max
      → (g' : Shared injectors workers) × (moves injectors
            (serially injectors workers cs)
            (over injectors workers g ts)
          ≡ over injectors workers g' (serve_all cs (waiting injectors workers g) ts).1)
        × (waiting injectors workers g' ≡ (serve_all cs (waiting injectors workers g) ts).0)
        × IsCounted injectors workers g'
  serially-serve_all cs g ts counts still small =
      let done = serve_all-Implements cs g ts counts in
      let g' = (steps injectors workers cs g ts).0 in
      (
        g',
        serially-steps injectors workers cs g ts still small
            ∙ ap (over injectors workers g') done.threads,
        done.items,
        done.exact,
      )
