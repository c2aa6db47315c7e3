-- ===== src/Queue/Examples.antt =====
-- Tests of the queues on lists, and their theorems at concrete inputs.
use open_coroutine.Base.{ℕ, ◌+◌, ◌≡◌, [], ◌∷◌, false, arith}
use open_coroutine.Queue.Rand.{FastRand}
use open_coroutine.Queue.Deques.{Injectors, Workers}
use open_coroutine.Queue.Instances.{list_injectors, Bounded, bounded_workers}
use open_coroutine.Queue.Steal.{Shared, LocalQueue, push_back, pop_front}
use open_coroutine.Queue.Moves.{held, handed}
use open_coroutine.Queue.Conserve.{push_back-held, pop_front-Paid}

abbrev injectors : Injectors ℕ
injectors = list_injectors

abbrev workers : Workers ℕ
workers = bounded_workers

abbrev seeded : FastRand
seeded = record { one = 7; two = 11 }

abbrev shared : Shared injectors workers
shared = record {
  shared_queue = 4 ∷ 6 ∷ [];
  len = 2;
  index = 5;
  seed_generator = record { state = seeded };
}

abbrev full_worker : Bounded ℕ
full_worker = record { capacity = 2; items = 1 ∷ 3 ∷ []; bounded = omega arith }

abbrev idle_worker : Bounded ℕ
idle_worker = record { capacity = 2; items = []; bounded = omega arith }

-- A local queue that is full, and one that is empty beside it.
abbrev loaded : LocalQueue injectors workers
loaded = record {
  shared = shared;
  before = [];
  queue = full_worker;
  behind = idle_worker ∷ [];
  tick = 0;
  stealing = false;
  rand = seeded;
}

abbrev thief : LocalQueue injectors workers
thief = record loaded { before = full_worker ∷ []; queue = idle_worker; behind = [] }

push_back-held_example :
    held injectors workers (λ x. x) (push_back injectors workers 9 loaded)
    ≡ 9 + held injectors workers (λ x. x) loaded
push_back-held_example = push_back-held injectors workers (λ x. x) 9 loaded

pop_front-Paid_example :
    held injectors workers (λ x. x) (pop_front injectors workers thief).0
      + handed injectors workers (λ x. x) (pop_front injectors workers thief).1
    ≡ held injectors workers (λ x. x) thief
pop_front-Paid_example = pop_front-Paid injectors workers (λ x. x) thief

abbrev sixtieth : LocalQueue injectors workers
sixtieth = record loaded { tick = 60 }

taken : ℕ
taken = handed injectors workers (λ x. x) (pop_front injectors workers thief).1
