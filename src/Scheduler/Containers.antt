-- ===== src/Scheduler/Containers.antt =====
-- What the scheduler takes from elsewhere: its ready queue, the `LocalQueue` of open-coroutine-queue,
-- and the `DashMap` of the crate dashmap. Each is a record of operations and of what the scheduler
-- relies on, seen by one thread while no other thread uses the container.
use open_coroutine.Base.{total, ℕ, ◌+◌, ◌≡◌, ◌==◌, if◌then◌else◌, List, [], Option, none, some, All}

-- A queue that keeps what is put in until it is taken out, in an order which is left open.
pub record ReadyQueue (A : Type 0) : Type 1 where
  pub Queue : Type 0
  pub contents : Queue → List A
  pub push_back : A → Queue → Queue
  pub pop_front : Queue → Queue × Option A
  pub push_total :
      (f : A → ℕ) (x : A) (q : Queue)
      → total f (contents (push_back x q)) ≡ f x + total f (contents q)
  pub push_all :
      (P : A → Type 0) (x : A) (q : Queue)
      → P x
      → All P (contents q)
      → All P (contents (push_back x q))
  pub pop_total :
      (f : A → ℕ) (q : Queue) (x : A)
      → (pop_front q).1 ≡ some x
      → total f (contents q) ≡ f x + total f (contents (pop_front q).0)
  pub pop_all :
      (P : A → Type 0) (q : Queue) (x : A)
      → (pop_front q).1 ≡ some x
      → All P (contents q)
      → P x × All P (contents (pop_front q).0)
  pub pop_none :
      (q : Queue) → (pop_front q).1 ≡ none → (contents q ≡ []) × (contents (pop_front q).0 ≡ [])

-- A map from names; `insert` replaces the value of a name that is there.
pub record Table (V : Type 0) : Type 1 where
  pub Map : Type 0
  pub values : Map → List V
  pub get : ℕ → Map → Option V
  pub insert : ℕ → V → Map → Map
  pub remove : ℕ → Map → Map
  pub get-insert :
      (k i : ℕ) (v : V) (m : Map) → get i (insert k v m) ≡ (if k == i then some v else get i m)
  pub get-remove : (k i : ℕ) (m : Map) → get i (remove k m) ≡ (if k == i then none else get i m)
  pub insert_new :
      (f : V → ℕ) (k : ℕ) (v : V) (m : Map)
      → get k m ≡ none
      → total f (values (insert k v m)) ≡ f v + total f (values m)
  pub insert_over :
      (f : V → ℕ) (k : ℕ) (v w : V) (m : Map)
      → get k m ≡ some w
      → total f (values (insert k v m)) + f w ≡ f v + total f (values m)
  pub remove_there :
      (f : V → ℕ) (k : ℕ) (v : V) (m : Map)
      → get k m ≡ some v
      → total f (values (remove k m)) + f v ≡ total f (values m)
