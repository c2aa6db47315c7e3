-- ===== src/Net/Exited.antt =====
-- The wait of `EventLoops::stop` ends with the threads of all loops at their end.
use open_coroutine.Base.{
  ℕ, suc, ◌-◌, ◌≤◌, ◌<◌, ◌≡◌, refl, sym, ap, ◌∙◌, ◌==◌, List, [], ◌∷◌, some, Bool, true, false,
  ◌||◌, not, get_elem?, length, total, total-set_nth, length-set_nth, All, All-get_elem?,
  All-set_nth, Bool-cases, Option-cases, inl, inr, arith,
}
use mathlib.Core.Path.{subst}
use open_coroutine.Queue.Deques.{Injectors}
use open_coroutine.Pool.Task.{Task}
use open_coroutine.Pool.Defs
use open_coroutine.Pool.Lifecycle.{is_running}
use open_coroutine.Net.Selector.{Pollers}
use open_coroutine.Net.Exit
use open_coroutine.Net.Exit.{
  Stage, loops, lowers, counts, over, Runner, Exit, Move, runs, others, advance, move, moves,
  waits_on, spawned,
}

module _ (injectors : Injectors Task) (pollers : Pollers) where
  abbrev pub ended : Stage injectors pollers → ℕ
  ended (over l) = 1
  ended s = 0

  abbrev pub ended_at : Runner injectors pollers → ℕ
  ended_at r = ended r.stage

  -- At the last test the pool was not running, no task waited and no worker ran.
  abbrev pub Drained : Exit.Loop injectors pollers → Type 0
  Drained l =
      (is_running l.pool.state ≡ false)
      × (Defs.is_empty injectors l.pool ≡ true)
      × ((l.pool.running == 0) ≡ true)

  -- A thread behind its loop left it drained.
  abbrev pub Left : Stage injectors pollers → Type 0
  Left loops = Unit {0}
  Left (lowers l) = Drained l
  Left (counts l) = Drained l
  Left (over l) = Drained l

  abbrev pub IsOver : Stage injectors pollers → Type 0
  IsOver (over l) = Drained l
  IsOver s = ⊥

  ended-bounds : (s : Stage injectors pollers) → ended s ≤ 1
  ended-bounds loops = omega arith
  ended-bounds (lowers l) = omega arith
  ended-bounds (counts l) = omega arith
  ended-bounds (over l) = omega arith

  at_end : (s : Stage injectors pollers) → Left s → 0 < ended s → IsOver s
  at_end loops left pos = absurd (omega arith)
  at_end (lowers l) left pos = absurd (omega arith)
  at_end (counts l) left pos = absurd (omega arith)
  at_end (over l) left pos = left

  -- The number counts the threads that are at their end, and every thread left its loop drained.
  pub record IsCounted (n : ℕ) (e : Exit injectors pollers) : Type 0 where
    pub counted : e.stopped ≡ total ended_at e.runners
    pub behind : All (λ r. Left r.stage) e.runners
    pub all : length e.runners ≡ n

  drained : (a b c : Bool) → (a || not b || not c) ≡ false → (a ≡ false) × (b ≡ true) × (c ≡ true)
  drained a b c e = ground arith

  at_place-IsCounted :
      (n i : ℕ) (r r' : Runner injectors pollers) (e : Exit injectors pollers)
      → get_elem? e.runners i ≡ some r
      → ended_at r' ≡ ended_at r
      → Left r'.stage
      → IsCounted n e
      → IsCounted n (Exit.at_place injectors pollers i r' e)
  at_place-IsCounted n i r r' e there same left c = record {
    counted = omega (arith, c.counted, same, total-set_nth ended_at e.runners i r r' there);
    behind = All-set_nth (λ x. Left x.stage) e.runners i r' c.behind left;
    all = length-set_nth e.runners i r' ∙ c.all;
  }

  stays :
      (n i : ℕ) (r : Runner injectors pollers) (l : Exit.Loop injectors pollers)
      (e : Exit injectors pollers)
      → get_elem? e.runners i ≡ some r
      → IsCounted n e
      → IsCounted n (Exit.at_place injectors pollers i (record r { event_loop = l }) e)
  stays n i r l e there c =
      at_place-IsCounted n i r (record r { event_loop = l }) e there refl
        (All-get_elem? (λ x. Left x.stage) e.runners i r c.behind there) c

  left_at :
      (n i : ℕ) (r : Runner injectors pollers) (s : Stage injectors pollers)
      (e : Exit injectors pollers)
      → get_elem? e.runners i ≡ some r
      → r.stage ≡ s
      → IsCounted n e
      → Left s
  left_at n i r s e there at c =
      subst Left at (All-get_elem? (λ x. Left x.stage) e.runners i r c.behind there)

  advance-IsCounted :
      (n i : ℕ) (wait_event : Exit.Loop injectors pollers → Exit.Loop injectors pollers)
      (r : Runner injectors pollers) (s : Stage injectors pollers) (e : Exit injectors pollers)
      → get_elem? e.runners i ≡ some r
      → r.stage ≡ s
      → IsCounted n e
      → IsCounted n (advance injectors pollers i wait_event r s e)
  unfolding advance
  advance-IsCounted n i wait_event r loops e there at c =
      elim (Bool-cases (Exit.goes_on injectors pollers r.event_loop)) [
        | inl on ↦ rw (on) (stays n i r (wait_event r.event_loop) e there c)
        | inr off ↦ rw (off) (
            at_place-IsCounted n i r (record r { stage = lowers r.event_loop }) e there
              (sym (ap ended at)) (drained _ _ _ off) c)
      ]
  advance-IsCounted n i wait_event r (lowers l) e there at c =
      at_place-IsCounted n i r (record r { pending = false; stage = counts l }) e there
        (sym (ap ended at)) (left_at n i r (lowers l) e there at c) c
  advance-IsCounted n i wait_event r (counts l) e there at c =
      let r' = record r { stage = over l } in
      record {
        counted =
            omega (arith, c.counted, ap ended at, total-set_nth ended_at e.runners i r r' there);
        behind =
            All-set_nth (λ x. Left x.stage) e.runners i r' c.behind
              (left_at n i r (counts l) e there at c);
        all = length-set_nth e.runners i r' ∙ c.all;
      }
  advance-IsCounted n i wait_event r (over l) e there at c = c

  made-IsCounted :
      (n : ℕ) (m : Move injectors pollers) (r : Runner injectors pollers)
      (e : Exit injectors pollers)
      → get_elem? e.runners (Exit.index_of injectors pollers m) ≡ some r
      → IsCounted n e
      → IsCounted n (Exit.made injectors pollers m r e)
  made-IsCounted n (runs i wait_event) r e there c =
      advance-IsCounted n i wait_event r r.stage e there refl c
  made-IsCounted n (others i change) r e there c = stays n i r (change r.event_loop) e there c

  move-IsCounted :
      (n : ℕ) (m : Move injectors pollers) (e : Exit injectors pollers)
      → IsCounted n e
      → IsCounted n (move injectors pollers m e)
  unfolding move
  move-IsCounted n m e c =
      elim (Option-cases (get_elem? e.runners (Exit.index_of injectors pollers m))) [
        | inl none_there ↦ rw (none_there, move) c
        | inr (r, there) ↦ rw (there, move) (made-IsCounted n m r e there c)
      ]

  pub moves-IsCounted :
      (n : ℕ) (ms : List (Move injectors pollers)) (e : Exit injectors pollers)
      → IsCounted n e
      → IsCounted n (moves injectors pollers ms e)
  unfolding moves
  moves-IsCounted n [] e c = c
  moves-IsCounted n (m ∷ ms) e c =
      moves-IsCounted n ms (move injectors pollers m e) (move-IsCounted n m e c)

  total-bounds : (rs : List (Runner injectors pollers)) → total ended_at rs ≤ length rs
  total-bounds [] = omega arith
  total-bounds (r ∷ rs) = omega (arith, ended-bounds r.stage, total-bounds rs)

  all-IsOver :
      (rs : List (Runner injectors pollers))
      → All (λ r. Left r.stage) rs
      → length rs ≤ total ended_at rs
      → All (λ r. IsOver r.stage) rs
  all-IsOver [] left enough = tt
  all-IsOver (r ∷ rs) left enough = (
    at_end r.stage left.0 (omega (arith, total-bounds rs)),
    all-IsOver rs left.1 (omega (arith, ended-bounds r.stage)),
  )

  pub spawned-IsCounted :
      (ls : List (Exit.Loop injectors pollers))
      → IsCounted (length ls) (record { stopped = 0; runners = spawned injectors pollers ls })
  unfolding spawned
  spawned-IsCounted [] = record { counted = refl; behind = tt; all = refl }
  spawned-IsCounted (l ∷ ls) =
      let c = spawned-IsCounted ls in
      record { counted = omega (arith, c.counted); behind = (tt, c.behind); all = ap suc c.all }

  -- From the threads of `n` loops less the monitor's, each of them started, whatever the threads do
  -- and whatever is done to their event loops meanwhile: where the wait of `EventLoops::stop` finds
  -- its condition false, every thread is at its end, and each left its loop with a pool that was not
  -- running and had neither a task nor a worker.
  pub waits_on-IsOver :
      (n : ℕ) (ls : List (Exit.Loop injectors pollers)) (ms : List (Move injectors pollers))
      → length ls ≡ n - 1
      → waits_on injectors pollers n (
          moves injectors pollers ms
            (record { stopped = 0; runners = spawned injectors pollers ls }))
        ≡ false
      → All
          (λ r. IsOver r.stage)
          (moves injectors pollers ms
            (record { stopped = 0; runners = spawned injectors pollers ls })).runners
  unfolding waits_on
  waits_on-IsOver n ls ms all ends =
      let c = moves-IsCounted (length ls) ms _ (spawned-IsCounted ls) in
      all-IsOver _ c.behind (ground (arith, c.counted, c.all, ends, all))
