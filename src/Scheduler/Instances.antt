-- ===== src/Scheduler/Instances.antt =====
-- A list as a ready queue, first in, first out, and the list of a `BTreeMap` as a table: both
-- interfaces of the scheduler can be filled.
use open_coroutine.Base.{
  total, total-append, ℕ, suc, ◌+◌, ◌≡◌, refl, List, [], ◌∷◌, ◌++◌, map, Option, none, some,
  some-injective, All, All-append, arith,
}
use open_coroutine.Timer.Map
use open_coroutine.Timer.Map.{From}
use open_coroutine.Scheduler.Containers.{ReadyQueue, Table}

pub total-snoc :
    {A : Type 0} (f : A → ℕ) (xs : List A) (x : A) → total f (xs ++ x ∷ []) ≡ f x + total f xs
total-snoc f xs x = omega (arith, total-append f xs (x ∷ []))

abbrev pub take_first : {A : Type 0} → List A → List A × Option A
take_first [] = ([], none)
take_first (x ∷ xs) = (xs, some x)

pub total-take_first :
    {A : Type 0} (f : A → ℕ) (q : List A) (x : A)
    → (take_first q).1 ≡ some x
    → total f q ≡ f x + total f (take_first q).0
total-take_first f [] x e = absurd (ground arith)
total-take_first f (y ∷ q) x e = ground arith

pub take_first-All :
    {A : Type 0} (P : A → Type 0) (q : List A) (x : A)
    → (take_first q).1 ≡ some x
    → All P q
    → P x × All P (take_first q).0
take_first-All P [] x e a = absurd (ground arith)
take_first-All P (y ∷ q) x e a = rw (some-injective y x e) at a

pub take_first-none :
    {A : Type 0} (q : List A) → (take_first q).1 ≡ none → (q ≡ []) × ((take_first q).0 ≡ [])
take_first-none [] e = (refl, refl)
take_first-none (x ∷ q) e = absurd (ground arith)

abbrev pub list_queue : {A : Type 0} → ReadyQueue A
list_queue {A} = record {
  Queue = List A;
  contents = λ q. q;
  push_back = λ x q. q ++ x ∷ [];
  pop_front = take_first;
  push_total = λ f x q. total-snoc f q x;
  push_all = λ P x q p a. All-append P q (x ∷ []) a (p, tt);
  pop_total = total-take_first;
  pop_all = take_first-All;
  pop_none = take_first-none;
}

-- The sum over the values of a map.
abbrev pub values : {A : Type 0} → List (ℕ × A) → List A
values m = map (λ p. p.1) m

pub insert_new_total :
    {A : Type 0} (f : A → ℕ) (k : ℕ) (v : A) (m : List (ℕ × A))
    → Map.get k m ≡ none
    → total f (values (Map.insert k v m)) ≡ f v + total f (values m)
unfolding Map.get Map.insert
insert_new_total f k v [] e = refl
insert_new_total f k v ((j, w) ∷ m) e = ground (arith, insert_new_total f k v m)

pub insert_over_total :
    {A : Type 0} (f : A → ℕ) (k n : ℕ) (v w : A) (m : List (ℕ × A))
    → From n m
    → Map.get k m ≡ some w
    → total f (values (Map.insert k v m)) + f w ≡ f v + total f (values m)
unfolding Map.get Map.insert
insert_over_total f k n v w [] s e = absurd (ground arith)
insert_over_total f k n v w ((j, x) ∷ m) s e =
    ground (
      arith,
      insert_over_total f k (suc j) v w m s.1,
      Map.get_below k (suc j) m,
      some-injective x w,
    )

pub remove_total :
    {A : Type 0} (f : A → ℕ) (k : ℕ) (v : A) (m : List (ℕ × A))
    → Map.get k m ≡ some v
    → total f (values (Map.remove k m)) + f v ≡ total f (values m)
unfolding Map.get Map.remove
remove_total f k v [] e = absurd (ground arith)
remove_total f k v ((j, x) ∷ m) e = ground (arith, remove_total f k v m, some-injective x v)

abbrev pub sorted_table : {A : Type 0} → Table A
sorted_table {A} = record {
  Map = (m : List (ℕ × A)) × From 0 m;
  values = λ m. values m.0;
  get = λ k m. Map.get k m.0;
  insert = λ k v m. (Map.insert k v m.0, Map.insert-From k 0 v m.0 (omega arith) m.1);
  remove = λ k m. (Map.remove k m.0, Map.remove-From k 0 m.0 m.1);
  get-insert = λ k i v m. Map.get-insert k i 0 v m.0 m.1;
  get-remove = λ k i m. Map.get-remove k i 0 m.0 m.1;
  insert_new = λ f k v m. insert_new_total f k v m.0;
  insert_over = λ f k v w m. insert_over_total f k 0 v w m.0 m.1;
  remove_there = λ f k v m. remove_total f k v m.0;
}
