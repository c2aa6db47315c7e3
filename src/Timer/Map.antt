-- ===== src/Timer/Map.antt =====
-- `BTreeMap<u64, V>` of the standard library, as the list of its pairs in the order of the keys.
use open_coroutine.Base.{
  ℕ, suc, ◌≤◌, ◌<◌, ◌≡◌, refl, ◌==◌, ltb, if◌then◌else◌, List, [], ◌∷◌, Option, none, some, arith,
}

module _ {ℓ} {V : Type ℓ} where
  -- `BTreeMap::get`.
  unfoldable pub get : ℕ → List (ℕ × V) → Option V
  get k [] = none
  get k ((j, v) ∷ m) = if j == k then some v else get k m

  -- `BTreeMap::insert`, which replaces the value of a key that is there.
  unfoldable pub insert : ℕ → V → List (ℕ × V) → List (ℕ × V)
  insert k v [] = (k, v) ∷ []
  insert k v ((j, w) ∷ m) =
      if ltb k j then (k, v) ∷ (j, w) ∷ m else if j == k then (k, v) ∷ m else (j, w) ∷ insert k v m

  -- `BTreeMap::get_mut`, with what is done to the value.
  unfoldable pub update : ℕ → (V → V) → List (ℕ × V) → List (ℕ × V)
  update k f [] = []
  update k f ((j, v) ∷ m) = if j == k then (j, f v) ∷ m else (j, v) ∷ update k f m

  -- `BTreeMap::remove`.
  unfoldable pub remove : ℕ → List (ℕ × V) → List (ℕ × V)
  remove k [] = []
  remove k ((j, v) ∷ m) = if j == k then m else (j, v) ∷ remove k m

  -- The keys rise, and none lies below the bound.
  abbrev pub From : ℕ → List (ℕ × V) → Type 0
  From n [] = Unit {0}
  From n ((k, v) ∷ m) = (n ≤ k) × From (suc k) m

  pub From-mono : {n n' : ℕ} (m : List (ℕ × V)) → n ≤ n' → From n' m → From n m
  From-mono [] le s = tt
  From-mono ((k, v) ∷ m) le s = (omega arith, s.1)

  pub get_below : (k n : ℕ) (m : List (ℕ × V)) → k < n → From n m → get k m ≡ none
  unfolding get
  get_below k n [] lt s = refl
  get_below k n ((j, v) ∷ m) lt s = ground (arith, get_below k (suc j) m)

  pub insert-From : (k n : ℕ) (v : V) (m : List (ℕ × V)) → n ≤ k → From n m → From n (insert k v m)
  unfolding insert
  insert-From k n v [] le s = (le, tt)
  insert-From k n v ((j, w) ∷ m) le s = ground (arith, insert-From k (suc j) v m)

  pub update-From : (k n : ℕ) (f : V → V) (m : List (ℕ × V)) → From n m → From n (update k f m)
  unfolding update
  update-From k n f [] s = tt
  update-From k n f ((j, v) ∷ m) s = ground (arith, update-From k (suc j) f m)

  pub remove-From : (k n : ℕ) (m : List (ℕ × V)) → From n m → From n (remove k m)
  unfolding remove
  remove-From k n [] s = tt
  remove-From k n ((j, v) ∷ m) s =
      ground (arith, remove-From k (suc j) m, From-mono {n = n} {n' = suc j} m)

  pub get-insert :
      (k i n : ℕ) (v : V) (m : List (ℕ × V))
      → From n m
      → get i (insert k v m) ≡ (if k == i then some v else get i m)
  unfolding get insert
  get-insert k i n v [] s = refl
  get-insert k i n v ((j, w) ∷ m) s =
      ground (arith, get-insert k i (suc j) v m s.1, get_below k (suc j) m)

  pub get-remove :
      (k i n : ℕ) (m : List (ℕ × V))
      → From n m
      → get i (remove k m) ≡ (if k == i then none else get i m)
  unfolding get remove
  get-remove k i n [] s = ground arith
  get-remove k i n ((j, w) ∷ m) s =
      ground (arith, get-remove k i (suc j) m s.1, get_below i (suc j) m)

  pub get-some_bound : (k n : ℕ) (m : List (ℕ × V)) (v : V) → From n m → get k m ≡ some v → n ≤ k
  unfolding get
  get-some_bound k n [] v s h = absurd (ground arith)
  get-some_bound k n ((j, w) ∷ m) v s h = ground (arith, get-some_bound k (suc j) m v s.1)

  pub get-update :
      (k i : ℕ) (f : V → V) (m : List (ℕ × V)) (v : V)
      → get k m ≡ some v
      → get i (update k f m) ≡ (if k == i then some (f v) else get i m)
  unfolding get update
  get-update k i f [] v h = absurd (ground arith)
  get-update k i f ((j, w) ∷ m) v h = ground (arith, get-update k i f m v)
