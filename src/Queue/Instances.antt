-- ===== src/Queue/Instances.antt =====
-- Lists as the deques, the worker with a bound: both interfaces of the queues can be filled.
use open_coroutine.Base.{
  ◌==◌, sym, ◌∙◌, ◌⊎◌, List-cases, ℕ, ◌≤◌, ◌<◌, ◌≡◌, refl, ap, if◌then◌else◌, List, [], ◌∷◌, ◌++◌,
  Option, none, some, some-injective, length, length-append, Bool-cases, inl, inr, arith,
}
use open_coroutine.Queue.Deques.{Injectors, Workers, Steal}
use native.Mathlib.Decide.{dec_lt}

abbrev pub steal_list : {A : Type 0} → List A → List A × Steal A
steal_list [] = ([], Steal.empty)
steal_list (x ∷ xs) = (xs, Steal.success x)

pub steal_list_first :
    {A : Type 0} (x : A) (xs q : List A)
    → q ≡ x ∷ xs
    → ((steal_list q).1 ≡ Steal.success x) × ((steal_list q).0 ≡ xs)
steal_list_first x xs q e = rw e (refl, refl)

pub steal_list_none :
    {A : Type 0} (q : List A) → q ≡ [] → ((steal_list q).1 ≡ Steal.empty) × ((steal_list q).0 ≡ [])
steal_list_none q e = rw e (refl, refl)

abbrev pub list_injectors : {A : Type 0} → Injectors A
list_injectors {A} = record {
  Injector = List A;
  waiting = λ q. q;
  push = λ x q. q ++ x ∷ [];
  steal = steal_list;
  push_behind = λ x q. refl;
  steal_first = steal_list_first;
  steal_none = steal_list_none;
}

-- A list with a bound on its length.
pub record Bounded (A : Type 0) : Type 0 where
  pub capacity : ℕ
  pub items : List A
  pub bounded : length items ≤ capacity

abbrev pub with_item :
    {A : Type 0} (x : A) (w : Bounded A) → length w.items < w.capacity → Bounded A
with_item x w room = record {
  capacity = w.capacity;
  items = w.items ++ x ∷ [];
  bounded = omega (arith, length-append w.items (x ∷ []), room);
}

abbrev pub push_by :
    {A : Type 0} (x : A) (w : Bounded A) → Dec (length w.items < w.capacity) → Option (Bounded A)
push_by x w (yes room) = some (with_item x w room)
push_by x w (no full) = none

abbrev pub push_bounded : {A : Type 0} → A → Bounded A → Option (Bounded A)
push_bounded x w = push_by x w (dec_lt (length w.items) w.capacity)

pub push_bounded_full :
    {A : Type 0} (x : A) (w : Bounded A) → w.capacity ≡ length w.items → push_bounded x w ≡ none
push_bounded_full {A} x w e = by_room (dec_lt (length w.items) w.capacity)
  where
    by_room : (d : Dec (length w.items < w.capacity)) → push_by x w d ≡ none
    by_room (yes room) = absurd (omega (arith, room, e))
    by_room (no full) = refl

pub push_bounded_room :
    {A : Type 0} (x : A) (w : Bounded A)
    → length w.items < w.capacity
    → (w' : Bounded A) × (push_bounded x w ≡ some w')
      × (w'.items ≡ w.items ++ x ∷ [])
      × (w'.capacity ≡ w.capacity)
push_bounded_room {A} x w room = by_room (dec_lt (length w.items) w.capacity)
  where
    by_room :
        (d : Dec (length w.items < w.capacity))
        → (w' : Bounded A) × (push_by x w d ≡ some w')
          × (w'.items ≡ w.items ++ x ∷ [])
          × (w'.capacity ≡ w.capacity)
    by_room (yes there) = (with_item x w there, refl, refl, refl)
    by_room (no full) = absurd (full room)

abbrev pub rest_of :
    {A : Type 0} (w : Bounded A) (x : A) (xs : List A) → w.items ≡ x ∷ xs → Bounded A
rest_of w x xs e = record {
  capacity = w.capacity;
  items = xs;
  bounded = omega (arith, w.bounded, ap length e);
}

abbrev pub pop_by :
    {A : Type 0} (w : Bounded A)
    → (w.items ≡ []) ⊎ ((x : A) × (xs : List A) × (w.items ≡ x ∷ xs))
    → Bounded A × Option A
pop_by w (inl e) = (w, none)
pop_by w (inr (x, xs, e)) = (rest_of w x xs e, some x)

abbrev pub pop_bounded : {A : Type 0} → Bounded A → Bounded A × Option A
pop_bounded w = pop_by w (List-cases w.items)

pub pop_bounded_first :
    {A : Type 0} (x : A) (xs : List A) (w : Bounded A)
    → w.items ≡ x ∷ xs
    → ((pop_bounded w).1 ≡ some x)
      × ((pop_bounded w).0.items ≡ xs)
      × ((pop_bounded w).0.capacity ≡ w.capacity)
pop_bounded_first {A} x xs w e = by_items (List-cases w.items)
  where
    by_items :
        (c : (w.items ≡ []) ⊎ ((y : A) × (ys : List A) × (w.items ≡ y ∷ ys)))
        → ((pop_by w c).1 ≡ some x)
          × ((pop_by w c).0.items ≡ xs)
          × ((pop_by w c).0.capacity ≡ w.capacity)
    by_items (inl nothing) = absurd (ground (arith, sym nothing ∙ e))
    by_items (inr (y, ys, there)) = let same : y ∷ ys ≡ x ∷ xs = sym there ∙ e in (cc, cc, refl)

pub pop_bounded-none :
    {A : Type 0} (w : Bounded A)
    → w.items ≡ []
    → ((pop_bounded w).1 ≡ none) × ((pop_bounded w).0 ≡ w)
pop_bounded-none {A} w e = by_items (List-cases w.items)
  where
    by_items :
        (c : (w.items ≡ []) ⊎ ((y : A) × (ys : List A) × (w.items ≡ y ∷ ys)))
        → ((pop_by w c).1 ≡ none) × ((pop_by w c).0 ≡ w)
    by_items (inl nothing) = (refl, refl)
    by_items (inr (y, ys, there)) = absurd (ground (arith, sym e ∙ there))

-- It steals one item at a time.
abbrev pub steal_by :
    {A : Type 0} (from to : Bounded A)
    → (from.items ≡ []) ⊎ ((x : A) × (xs : List A) × (from.items ≡ x ∷ xs))
    → Dec (length to.items < to.capacity)
    → Option (Bounded A × Bounded A)
steal_by from to (inr (x, xs, e)) (yes room) = some (rest_of from x xs e, with_item x to room)
steal_by from to _ _ = none

abbrev pub steal_one :
    {A : Type 0} → (ℕ → ℕ) → Bounded A → Bounded A → Option (Bounded A × Bounded A)
steal_one count from to =
    if count (length from.items) == 0
    then none
    else steal_by from to (List-cases from.items) (dec_lt (length to.items) to.capacity)

abbrev pub Moved : {A : Type 0} → Bounded A → Bounded A → Bounded A → Bounded A → Type 0
Moved {A} from to from' to' =
    (x : A) × (moved : List A) × (from.items ≡ x ∷ moved ++ from'.items)
    × (to'.items ≡ to.items ++ x ∷ moved)
    × (from'.capacity ≡ from.capacity)
    × (to'.capacity ≡ to.capacity)

steal_by_moves :
    {A : Type 0} (from to from' to' : Bounded A)
    (c : (from.items ≡ []) ⊎ ((x : A) × (xs : List A) × (from.items ≡ x ∷ xs)))
    (d : Dec (length to.items < to.capacity))
    → steal_by from to c d ≡ some (from', to')
    → Moved from to from' to'
steal_by_moves from to from' to' (inr (x, xs, e)) (yes room) h =
    rw (sym (ap (λ p. p.0) (some-injective _ _ h)), sym (ap (λ p. p.1) (some-injective _ _ h)))
      (x, [], e, refl, refl, refl)
steal_by_moves from to from' to' (inl e) (yes room) h = absurd (ground arith)
steal_by_moves from to from' to' (inl e) (no full) h = absurd (ground arith)
steal_by_moves from to from' to' (inr p) (no full) h = absurd (ground arith)

pub steal_one_moves :
    {A : Type 0} (count : ℕ → ℕ) (from to from' to' : Bounded A)
    → steal_one count from to ≡ some (from', to')
    → Moved from to from' to'
steal_one_moves count from to from' to' h = elim (Bool-cases (count (length from.items) == 0)) [
  | inl nothing ↦ absurd (ground (arith, rw nothing at h))
  | inr some_there ↦
      steal_by_moves from to from' to' (List-cases from.items)
        (dec_lt (length to.items) to.capacity) (rw some_there at h)
]

abbrev pub bounded_workers : {A : Type 0} → Workers A
bounded_workers {A} = record {
  Worker = Bounded A;
  items = λ w. w.items;
  capacity = λ w. w.capacity;
  push = push_bounded;
  pop = pop_bounded;
  steal = steal_one;
  bounded = λ w. w.bounded;
  push_full = push_bounded_full;
  push_room = push_bounded_room;
  pop_first = pop_bounded_first;
  pop_none = pop_bounded-none;
  steal_moves = steal_one_moves;
}
