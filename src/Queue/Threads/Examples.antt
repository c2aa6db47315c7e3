-- ===== src/Queue/Threads/Examples.antt =====
-- Threads on lists as the deques, and their theorems at concrete inputs.
use open_coroutine.Base.{ℕ, ◌+◌, ◌≡◌, refl, List, [], ◌∷◌, ◌++◌, none, some, length, u64_max, arith}
use open_coroutine.Queue.Deques.{Injectors, Workers}
use open_coroutine.Queue.Instances.{list_injectors, bounded_workers}
use open_coroutine.Queue.Steal.{Shared, pop}
use open_coroutine.Queue.Counted.{waiting, IsCounted}
use open_coroutine.Queue.Threads.Defs.{idle, Thread, Move, calls_push, calls_pop, runs, moves}
use open_coroutine.Queue.Threads.Owed.{owed, all_given, moves-owed}
use open_coroutine.Queue.Threads.Serial.{Call, pushing, popping, serially, over}
use open_coroutine.Queue.Threads.Fifo.{serve_all, serially-serve_all}
use open_coroutine.Queue.Threads.Races.{race, pops_of, race_strands, pop_race, pop_race_wraps}

abbrev injectors : Injectors ℕ
injectors = list_injectors

abbrev workers : Workers ℕ
workers = bounded_workers

abbrev shared : Shared injectors workers
shared = record {
  shared_queue = 4 ∷ [];
  len = 1;
  index = 0;
  seed_generator = record { state = record { one = 7; two = 11 } };
}

abbrev resting : Thread ℕ
resting = record { phase = idle; got = [] }

abbrev two_threads : List (Thread ℕ)
two_threads = resting ∷ resting ∷ []

-- A push and a pop that interleave.
abbrev crossing : List (Move ℕ)
crossing = calls_push 0 9 ∷ calls_pop 1 ∷ runs 0 ∷ runs 1 ∷ runs 1 ∷ runs 0 ∷ runs 1 ∷ []

moves-owed_example :
    owed injectors (λ x. x) (moves injectors crossing (over injectors workers shared two_threads))
    ≡ all_given injectors (λ x. x) crossing (over injectors workers shared two_threads)
      + owed injectors (λ x. x) (over injectors workers shared two_threads)
moves-owed_example =
    moves-owed injectors (λ x. x) crossing (over injectors workers shared two_threads)

abbrev calls : List (Call ℕ)
calls = pushing 0 9 ∷ popping 1 ∷ popping 0 ∷ popping 1 ∷ []

-- The first thread pushes 9, and the pops get 4, 9 and nothing.
serially-serve_all_example :
    (g' : Shared injectors workers) × (moves injectors
        (serially injectors workers calls)
        (over injectors workers shared two_threads)
      ≡ over injectors workers g' (serve_all injectors workers calls (4 ∷ []) two_threads).1)
    × (waiting injectors workers g' ≡ (serve_all injectors workers calls (4 ∷ []) two_threads).0)
    × IsCounted injectors workers g'
serially-serve_all_example =
    serially-serve_all injectors workers calls shared two_threads refl (refl, (refl, tt))
      (omega arith)

race_strands_example :
    (g' : Shared injectors workers) × (ts : List (Thread ℕ)) × (moves injectors
        (race 8 9 ++ serially injectors workers (pops_of 2))
        (over injectors workers shared two_threads)
      ≡ over injectors workers g' ts)
    × (length (waiting injectors workers g') ≡ 1)
    × (pop injectors workers g' ≡ (g', none))
race_strands_example =
    race_strands injectors workers 8 9 shared resting resting [] refl (refl, (refl, tt))
      (omega arith)

pop_race_wraps_example :
    (g' : Shared injectors workers) × (moves injectors
        (pop_race injectors workers)
        (over injectors workers (record shared { shared_queue = 4 ∷ 6 ∷ [] }) two_threads)
      ≡ over injectors workers g' (
          record { phase = idle; got = some 4 ∷ [] }
          ∷ record { phase = idle; got = some 6 ∷ [] }
          ∷ []))
    × (waiting injectors workers g' ≡ [])
    × (g'.len ≡ u64_max)
pop_race_wraps_example =
    pop_race_wraps injectors workers 4 6 [] [] [] [] (record shared { shared_queue = 4 ∷ 6 ∷ [] })
      refl refl
