-- ===== src/Queue/Deques.antt =====
-- What open-coroutine-queue takes from elsewhere: the `Injector` of the crate crossbeam-deque and the
-- `Worker` of the crate st3. Each is a record of operations and of its documented behaviour, seen
-- by one thread while no other thread uses the queues, so that no steal has to be tried again.
use open_coroutine.Base.{ℕ, ◌≤◌, ◌<◌, ◌≡◌, List, [], ◌∷◌, ◌++◌, Option, none, some, length}

-- `Steal` of crossbeam-deque.
pub data Steal (A : Type 0) : Type 0 where
  success : A → Steal A
  retry empty : Steal A

-- An unbounded queue, first in, first out.
pub record Injectors (A : Type 0) : Type 1 where
  pub Injector : Type 0
  pub waiting : Injector → List A
  pub push : A → Injector → Injector
  pub steal : Injector → Injector × Steal A
  pub push_behind : (x : A) (q : Injector) → waiting (push x q) ≡ waiting q ++ x ∷ []
  pub steal_first :
      (x : A) (xs : List A) (q : Injector)
      → waiting q ≡ x ∷ xs
      → ((steal q).1 ≡ Steal.success x) × (waiting (steal q).0 ≡ xs)
  pub steal_none :
      (q : Injector) → waiting q ≡ [] → ((steal q).1 ≡ Steal.empty) × (waiting (steal q).0 ≡ [])

-- A bounded queue, first in, first out. `push` hands the item back where the queue is full. `steal`
-- moves items from the front of one queue behind those of another, as many as the function says of
-- the number that is there, or as many as fit, and fails where that is none.
pub record Workers (A : Type 0) : Type 1 where
  pub Worker : Type 0
  pub items : Worker → List A
  pub capacity : Worker → ℕ
  pub push : A → Worker → Option Worker
  pub pop : Worker → Worker × Option A
  pub steal : (ℕ → ℕ) → Worker → Worker → Option (Worker × Worker)
  pub bounded : (w : Worker) → length (items w) ≤ capacity w
  pub push_full : (x : A) (w : Worker) → capacity w ≡ length (items w) → push x w ≡ none
  pub push_room :
      (x : A) (w : Worker)
      → length (items w) < capacity w
      → (w' : Worker) × (push x w ≡ some w')
        × (items w' ≡ items w ++ x ∷ [])
        × (capacity w' ≡ capacity w)
  pub pop_first :
      (x : A) (xs : List A) (w : Worker)
      → items w ≡ x ∷ xs
      → ((pop w).1 ≡ some x) × (items (pop w).0 ≡ xs) × (capacity (pop w).0 ≡ capacity w)
  pub pop_none : (w : Worker) → items w ≡ [] → ((pop w).1 ≡ none) × ((pop w).0 ≡ w)
  pub steal_moves :
      (count : ℕ → ℕ) (from to from' to' : Worker)
      → steal count from to ≡ some (from', to')
      → (x : A) × (moved : List A) × (items from ≡ x ∷ moved ++ items from')
        × (items to' ≡ items to ++ x ∷ moved)
        × (capacity from' ≡ capacity from)
        × (capacity to' ≡ capacity to)
