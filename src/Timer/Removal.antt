-- ===== src/Timer/Removal.antt =====
-- `TimerEntry::remove` of open-coroutine-timer/src/lib.rs, over a `binary_search_by` of which only
-- the documented behaviour on sorted input is known.
use open_coroutine.Base.{
  ℕ, zero, suc, ◌≤◌, ◌<◌, ◌≡◌, ◌≢◌, refl, ap, List, [], ◌∷◌, ◌++◌, some, arith, ◌⊎◌, inl, inr,
  get_elem?, remove_nth,
}
use native.Mathlib.Decide.{dec_lt}
use open_coroutine.Timer.Entry.{TimerEntry, SearchResult, found, not_found, remove}

module _ {T : Type 0} (key : T → ℕ) where
  -- The keys do not fall along the list, and none lies below the bound.
  abbrev pub Rising : ℕ → List T → Type 0
  Rising n [] = Unit {0}
  Rising n (x ∷ xs) = (n ≤ key x) × Rising (key x) xs

  -- The contract of `binary_search_by(|x| x.cmp(t))` on a sorted slice, the order being that of the
  -- keys.
  pub record IsBinarySearch (search : List T → T → SearchResult) : Type 0 where
    pub found_at :
        (xs : List T) (t : T) (i : ℕ)
        → Rising 0 xs
        → search xs t ≡ found i
        → (x : T) × (get_elem? xs i ≡ some x) × (key x ≡ key t)
    pub before :
        (xs : List T) (t : T) (i j : ℕ) (x : T)
        → Rising 0 xs
        → search xs t ≡ not_found i
        → get_elem? xs j ≡ some x
        → j < i
        → key x < key t
    pub behind :
        (xs : List T) (t : T) (i j : ℕ) (x : T)
        → Rising 0 xs
        → search xs t ≡ not_found i
        → get_elem? xs j ≡ some x
        → i ≤ j
        → key t < key x

  get_elem?_below :
      (xs : List T) (i j : ℕ) (x : T)
      → i ≤ j
      → get_elem? xs j ≡ some x
      → (y : T) × (get_elem? xs i ≡ some y)
  get_elem?_below [] i j x le h = cc
  get_elem?_below (y ∷ ys) zero j x le h = (y, refl)
  get_elem?_below (y ∷ ys) (suc i) zero x le h = absurd (omega arith)
  get_elem?_below (y ∷ ys) (suc i) (suc j) x le h = get_elem?_below ys i j x (omega arith) h

  split_nth :
      (xs : List T) (i : ℕ) (x : T)
      → get_elem? xs i ≡ some x
      → (front : List T) × (back : List T) × (xs ≡ front ++ x ∷ back)
        × (remove_nth xs i ≡ front ++ back)
  split_nth [] i x h = cc
  split_nth (y ∷ ys) zero x h = ([], ys, ap (λ z. z ∷ ys) (cc), refl)
  split_nth (y ∷ ys) (suc i) x h =
      let (front, back, eq, rest) = split_nth ys i x h in
      (y ∷ front, back, ap (◌∷◌ y) eq, ap (◌∷◌ y) rest)

  search_cases : (r : SearchResult) → ((i : ℕ) × (r ≡ found i)) ⊎ ((i : ℕ) × (r ≡ not_found i))
  search_cases (found i) = inl (i, refl)
  search_cases (not_found i) = inr (i, refl)

  module _ (search : List T → T → SearchResult) (contract : IsBinarySearch search) where
    -- From a sorted entry that holds a value with the key of `t`, `remove t` takes out one such
    -- value and leaves all others, in their order, under the same timestamp.
    pub remove_present :
        (t : T) (e : TimerEntry T) (j : ℕ) (x : T)
        → Rising 0 e.inner
        → get_elem? e.inner j ≡ some x
        → key x ≡ key t
        → (y : T) × (front : List T) × (back : List T) × (key y ≡ key t)
          × (e.inner ≡ front ++ y ∷ back)
          × (remove search t e
              ≡ (record { timestamp = e.timestamp; inner = front ++ back }, some y))
    unfolding remove
    remove_present t e j x rising at same = elim (search_cases (search e.inner t)) [
      | inl (i, hit) ↦
          let (y, at_i, key_y) = contract.found_at e.inner t i rising hit in
          let (front, back, eq, rest) = split_nth e.inner i y at_i in
          (y, front, back, key_y, eq, rw (hit, at_i, rest))
      | inr (i, miss) ↦ elim (dec_lt j i) [
        | yes first ↦ absurd (omega (arith, contract.before e.inner t i j x rising miss at first))
        | no last ↦
            absurd (omega (arith, contract.behind e.inner t i j x rising miss at (omega arith)))
      ]
    ]

    -- From a sorted entry that holds no value with the key of `t`, but one with a larger key,
    -- `remove t` nevertheless takes out a value, whose key is larger than that of `t`.
    pub remove_absent :
        (t : T) (e : TimerEntry T) (j : ℕ) (x : T)
        → Rising 0 e.inner
        → ((i : ℕ) (y : T) → get_elem? e.inner i ≡ some y → key y ≢ key t)
        → get_elem? e.inner j ≡ some x
        → key t < key x
        → (y : T) × ((remove search t e).1 ≡ some y) × (key t < key y)
    unfolding remove
    remove_absent t e j x rising absent at larger = elim (search_cases (search e.inner t)) [
      | inl (i, hit) ↦
          let (y, at_i, key_y) = contract.found_at e.inner t i rising hit in
          absurd (absent i y at_i key_y)
      | inr (i, miss) ↦ elim (dec_lt j i) [
        | yes first ↦ absurd (omega (arith, contract.before e.inner t i j x rising miss at first))
        | no last ↦
            let (y, at_i) = get_elem?_below e.inner i j x (omega arith) at in
            (y, rw (miss, at_i), contract.behind e.inner t i i y rising miss at_i (omega arith))
      ]
    ]
