-- ===== src/Net/Leaving.antt =====
-- The threads of drained pools come to their end in whatever order they run, and with them the wait of
-- `EventLoops::stop`.
use open_coroutine.Base.{
  ℕ, zero, suc, ◌+◌, ◌-◌, ◌≤◌, ◌<◌, ◌≡◌, refl, sym, ap, ◌∙◌, ◌==◌, if◌then◌else◌, List, [], ◌∷◌,
  Option, none, some, false, get_elem?, set_nth, length, total, All, All-get_elem?, All-set_nth,
  Bool-cases, Option-cases, inl, inr, arith, ==→eq,
}
use mathlib.Core.Path.{subst}
use open_coroutine.Queue.Deques.{Injectors}
use open_coroutine.Pool.Task.{Task}
use open_coroutine.Net.Selector.{Pollers}
use open_coroutine.Net.Exit
use open_coroutine.Net.Exit.{
  Stage, loops, lowers, counts, over, Runner, Exit, Move, runs, others, advance, move, moves,
  waits_on, spawned,
}
use open_coroutine.Net.Exited
use open_coroutine.Net.Exited.{IsCounted, ended_at}

-- How often a thread occurs in a schedule.
abbrev pub times_of : ℕ → List ℕ → ℕ
times_of i [] = 0
times_of i (j ∷ js) = if i == j then times_of i js + 1 else times_of i js

module _ (injectors : Injectors Task) (pollers : Pollers) where
  -- The threads run one after another as the schedule says; none has anything left to wait for.
  abbrev pub in_order :
      (Exit.Loop injectors pollers → Exit.Loop injectors pollers)
      → List ℕ
      → List (Move injectors pollers)
  in_order wait_event [] = []
  in_order wait_event (i ∷ is) = runs i wait_event ∷ in_order wait_event is

  abbrev to_do : Stage injectors pollers → ℕ
  to_do loops = 3
  to_do (lowers l) = 2
  to_do (counts l) = 1
  to_do (over l) = 0

  abbrev to_do_of : Option (Runner injectors pollers) → ℕ
  to_do_of none = 0
  to_do_of (some r) = to_do r.stage

  abbrev to_do_at : ℕ → List (Runner injectors pollers) → ℕ
  to_do_at i rs = to_do_of (get_elem? rs i)

  no_less :
      (i j : ℕ) (rs : List (Runner injectors pollers))
      → to_do_at j rs ≡ 0
      → to_do_at i rs ≡ (if i == j then to_do_at i rs - 1 else to_do_at i rs)
  no_less i j rs none_left = elim (Bool-cases (i == j)) [
    | inl same ↦
        rw (same)
          (let there = ap (λ k. to_do_at k rs) (==→eq i j same) ∙ none_left in omega (arith, there))
    | inr other ↦ rw (other) refl
  ]

  to_do-set_nth :
      (i j : ℕ) (r r' : Runner injectors pollers) (rs : List (Runner injectors pollers))
      → get_elem? rs j ≡ some r
      → to_do r'.stage ≡ to_do r.stage - 1
      → to_do_at i (set_nth rs j r') ≡ (if i == j then to_do_at i rs - 1 else to_do_at i rs)
  to_do-set_nth i j r r' [] there less = absurd (ground arith)
  to_do-set_nth zero zero r r' (x ∷ rs) there less = omega (arith, less, ap to_do_of there)
  to_do-set_nth zero (suc j) r r' (x ∷ rs) there less = ground arith
  to_do-set_nth (suc i) zero r r' (x ∷ rs) there less = ground arith
  to_do-set_nth (suc i) (suc j) r r' (x ∷ rs) there less =
      ground (arith, to_do-set_nth i j r r' rs there less)

  abbrev pub Done : List (Runner injectors pollers) → Type 0
  Done rs = All (λ r. Exit.goes_on injectors pollers r.event_loop ≡ false) rs

  record Less (i j : ℕ) (e e' : Exit injectors pollers) : Type 0 where
    nearer :
        to_do_at i e'.runners ≡ (if i == j then to_do_at i e.runners - 1 else to_do_at i e.runners)
    still : Done e'.runners

  at_place-Less :
      (i j : ℕ) (r r' : Runner injectors pollers) (e e' : Exit injectors pollers)
      → get_elem? e.runners j ≡ some r
      → Done e.runners
      → to_do r'.stage ≡ to_do r.stage - 1
      → r'.event_loop ≡ r.event_loop
      → e'.runners ≡ set_nth e.runners j r'
      → Less i j e e'
  at_place-Less i j r r' e e' there done less same at = record {
    nearer = ap (to_do_at i) at ∙ to_do-set_nth i j r r' e.runners there less;
    still = subst Done (sym at) (
        All-set_nth (λ x. Exit.goes_on injectors pollers x.event_loop ≡ false) e.runners j r' done
          (ap (Exit.goes_on injectors pollers) same
            ∙ All-get_elem? (λ x. Exit.goes_on injectors pollers x.event_loop ≡ false) e.runners j r
                done there));
  }

  advance-Less :
      (i j : ℕ) (wait_event : Exit.Loop injectors pollers → Exit.Loop injectors pollers)
      (r : Runner injectors pollers) (s : Stage injectors pollers) (e : Exit injectors pollers)
      → get_elem? e.runners j ≡ some r
      → r.stage ≡ s
      → Done e.runners
      → Less i j e (advance injectors pollers j wait_event r s e)
  unfolding advance
  advance-Less i j wait_event r loops e there at done =
      rw
        (All-get_elem? (λ x. Exit.goes_on injectors pollers x.event_loop ≡ false) e.runners j r done
          there)
        (at_place-Less i j r (record r { stage = lowers r.event_loop }) e _ there done
          (omega (arith, ap to_do at)) refl refl)
  advance-Less i j wait_event r (lowers l) e there at done =
      at_place-Less i j r (record r { pending = false; stage = counts l }) e _ there done
        (omega (arith, ap to_do at)) refl refl
  advance-Less i j wait_event r (counts l) e there at done =
      at_place-Less i j r (record r { stage = over l }) e _ there done (omega (arith, ap to_do at))
        refl refl
  advance-Less i j wait_event r (over l) e there at done = record {
    nearer = no_less i j e.runners (ap to_do_of there ∙ ap to_do at);
    still = done;
  }

  runs-Less :
      (i j : ℕ) (wait_event : Exit.Loop injectors pollers → Exit.Loop injectors pollers)
      (e : Exit injectors pollers)
      → Done e.runners
      → Less i j e (move injectors pollers (runs j wait_event) e)
  unfolding move
  runs-Less i j wait_event e done = elim (Option-cases (get_elem? e.runners j)) [
    | inl none_there ↦
        rw (none_there, move)
          (record { nearer = no_less i j e.runners (ap to_do_of none_there); still = done })
    | inr (r, there) ↦ rw (there, move) (advance-Less i j wait_event r r.stage e there refl done)
  ]

  moves_left :
      (i : ℕ) (wait_event : Exit.Loop injectors pollers → Exit.Loop injectors pollers) (is : List ℕ)
      (e : Exit injectors pollers)
      → Done e.runners
      → to_do_at i (moves injectors pollers (in_order wait_event is) e).runners
        ≡ to_do_at i e.runners - times_of i is
  unfolding moves
  moves_left i wait_event [] e done = omega arith
  moves_left i wait_event (j ∷ is) e done =
      let less = runs-Less i j wait_event e done in
      moves_left i wait_event is (move injectors pollers (runs j wait_event) e) less.still
      ∙ ground (arith, less.nearer)

  to_do-bounds : (o : Option (Runner injectors pollers)) → to_do_of o ≤ 3
  to_do-bounds none = omega arith
  to_do-bounds (some r) = bounds r.stage
    where
      bounds : (s : Stage injectors pollers) → to_do s ≤ 3
      bounds loops = omega arith
      bounds (lowers l) = omega arith
      bounds (counts l) = omega arith
      bounds (over l) = omega arith

  none_to_do : (s : Stage injectors pollers) → to_do s ≡ 0 → Exited.ended injectors pollers s ≡ 1
  none_to_do loops e = absurd (omega arith)
  none_to_do (lowers l) e = absurd (omega arith)
  none_to_do (counts l) e = absurd (omega arith)
  none_to_do (over l) e = refl

  all_ended :
      (rs : List (Runner injectors pollers))
      → ((i : ℕ) → i < length rs → to_do_at i rs ≡ 0)
      → total (ended_at injectors pollers) rs ≡ length rs
  all_ended [] none_left = refl
  all_ended (r ∷ rs) none_left = omega (
    arith,
    none_to_do r.stage (none_left 0 (omega arith)),
    all_ended rs (λ i lt. none_left (suc i) (omega arith)),
  )

  -- From the threads of `n` loops less the monitor's, each of them started, behind whatever the
  -- threads did and whatever was done to their event loops: where no event loop's pool is running or
  -- has a task or a worker left, and from there on each thread runs three times or more, in any
  -- order, the wait of `EventLoops::stop` finds its condition false.
  pub moves-waits_on :
      (n : ℕ) (ls : List (Exit.Loop injectors pollers)) (before : List (Move injectors pollers))
      (wait_event : Exit.Loop injectors pollers → Exit.Loop injectors pollers) (is : List ℕ)
      (e : Exit injectors pollers)
      → length ls ≡ n - 1
      → e
        ≡ moves injectors pollers before
            (record { stopped = 0; runners = spawned injectors pollers ls })
      → Done e.runners
      → ((i : ℕ) → i < n - 1 → 3 ≤ times_of i is)
      → waits_on injectors pollers n (moves injectors pollers (in_order wait_event is) e) ≡ false
  unfolding waits_on
  moves-waits_on n ls before wait_event is e all from done often =
      let first = subst (IsCounted injectors pollers (length ls)) (sym from) (
        Exited.moves-IsCounted injectors pollers (length ls) before _
          (Exited.spawned-IsCounted injectors pollers ls)) in
      let c =
        Exited.moves-IsCounted injectors pollers (length ls) (in_order wait_event is) e first in
      let done_at : (i : ℕ)
          → i < length (moves injectors pollers (in_order wait_event is) e).runners
          → to_do_at i (moves injectors pollers (in_order wait_event is) e).runners ≡ 0 =
        λ i lt. omega (
          arith,
          moves_left i wait_event is e done,
          often i (omega (arith, c.all, all)),
          to_do-bounds (get_elem? e.runners i),
        ) in
      ground (arith, c.counted, c.all, all, all_ended _ done_at)
