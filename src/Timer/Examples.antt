-- ===== src/Timer/Examples.antt =====
-- Tests of the timer's definitions, and its theorems at concrete inputs.
use open_coroutine.Base.{
  ℕ, zero, suc, ◌≤◌, ◌<◌, ◌≡◌, ◌≢◌, ◌⊎◌, inl, inr, sym, ◌∙◌, refl, List, [], ◌∷◌, some, arith,
  get_elem?, ltb, ◌==◌, if◌then◌else◌,
}
use open_coroutine.Timer.Entry.{TimerEntry, SearchResult, found, not_found, remove}
use open_coroutine.Timer.Entry
use open_coroutine.Timer.Map
use open_coroutine.Timer.Queue.{TimerList, insert, pop_front, value_count}
use open_coroutine.Timer.Queue
use open_coroutine.Timer.Order.{events, schedule, IsOrdered, insert-schedule}
use open_coroutine.Timer.Removal.{Rising, IsBinarySearch}

-- A search that scans from the front.
abbrev one_later : SearchResult → SearchResult
one_later (found i) = found (suc i)
one_later (not_found i) = not_found (suc i)

scan : List ℕ → ℕ → SearchResult
scan [] t = not_found 0
scan (x ∷ xs) t = if ltb t x then not_found 0 else if x == t then found 0 else one_later (scan xs t)

abbrev self : ℕ → ℕ
self x = x

one_later-found :
    (r : SearchResult) (i : ℕ) → one_later r ≡ found i → (j : ℕ) × (r ≡ found j) × (i ≡ suc j)
one_later-found (found j) i h = (j, refl, ground arith)
one_later-found (not_found j) i h = cc

one_later_not_found :
    (r : SearchResult) (i : ℕ)
    → one_later r ≡ not_found i
    → (j : ℕ) × (r ≡ not_found j) × (i ≡ suc j)
one_later_not_found (not_found j) i h = (j, refl, ground arith)
one_later_not_found (found j) i h = cc

-- How a search of a list that is not empty ends.
scan_cases :
    (x : ℕ) (xs : List ℕ) (t : ℕ)
    → ((t < x) × (scan (x ∷ xs) t ≡ not_found 0))
      ⊎ ((x ≡ t) × (scan (x ∷ xs) t ≡ found 0))
      ⊎ ((x < t) × (scan (x ∷ xs) t ≡ one_later (scan xs t)))
unfolding scan
scan_cases x xs t = ground arith

scan-found_at :
    (n : ℕ) (xs : List ℕ) (t i : ℕ)
    → Rising self n xs
    → scan xs t ≡ found i
    → (x : ℕ) × (get_elem? xs i ≡ some x) × (x ≡ t)
unfolding scan
scan-found_at n [] t i r h = cc
scan-found_at n (x ∷ xs) t i r h = elim (scan_cases x xs t) [
  | inl c ↦ cc c.1
  | inr (inl c) ↦ let at : i ≡ 0 = ground (arith, c.1) in (x, rw at refl, c.0)
  | inr (inr c) ↦
      let (k, hit, eq) = one_later-found (scan xs t) i (sym c.1 ∙ h) in
      let (y, at, same) = scan-found_at x xs t k r.1 hit in (y, rw eq at, same)
]

Rising-le : (n : ℕ) (xs : List ℕ) (j x : ℕ) → Rising self n xs → get_elem? xs j ≡ some x → n ≤ x
Rising-le n [] j x r h = cc
Rising-le n (y ∷ ys) zero x r h = ground arith
Rising-le n (y ∷ ys) (suc j) x r h = omega (arith, Rising-le y ys j x r.1 h)

scan-before :
    (n : ℕ) (xs : List ℕ) (t i j x : ℕ)
    → Rising self n xs
    → scan xs t ≡ not_found i
    → get_elem? xs j ≡ some x
    → j < i
    → x < t
scan-before n [] t i j x r h at lt = cc
scan-before n (y ∷ xs) t i j x r h at lt = elim (scan_cases y xs t) [
  | inl c ↦ absurd (ground (arith, c.1))
  | inr (inl c) ↦ absurd (cc c.1)
  | inr (inr c) ↦
      let (k, miss, eq) = one_later_not_found (scan xs t) i (sym c.1 ∙ h) in
      rest j k at (ground arith) c.0 (scan-before y xs t k) miss
]
  where
    rest :
        (j k : ℕ)
        → get_elem? (y ∷ xs) j ≡ some x
        → j < suc k
        → y < t
        → ((j x : ℕ)
            → Rising self y xs
            → scan xs t ≡ not_found k
            → get_elem? xs j ≡ some x
            → j < k
            → x < t)
        → scan xs t ≡ not_found k
        → x < t
    rest zero k at lt yt ih miss = ground arith
    rest (suc j) k at lt yt ih miss = ih j x r.1 miss at (omega arith)

scan-behind :
    (n : ℕ) (xs : List ℕ) (t i j x : ℕ)
    → Rising self n xs
    → scan xs t ≡ not_found i
    → get_elem? xs j ≡ some x
    → i ≤ j
    → t < x
scan-behind n [] t i j x r h at le = cc
scan-behind n (y ∷ xs) t i j x r h at le = elim (scan_cases y xs t) [
  | inl c ↦ omega (arith, c.0, Rising-le y (y ∷ xs) j x (omega arith, r.1) at)
  | inr (inl c) ↦ absurd (cc c.1)
  | inr (inr c) ↦
      let (k, miss, eq) = one_later_not_found (scan xs t) i (sym c.1 ∙ h) in
      rest j k at (ground arith) (scan-behind y xs t k) miss
]
  where
    rest :
        (j k : ℕ)
        → get_elem? (y ∷ xs) j ≡ some x
        → suc k ≤ j
        → ((j x : ℕ)
            → Rising self y xs
            → scan xs t ≡ not_found k
            → get_elem? xs j ≡ some x
            → k ≤ j
            → t < x)
        → scan xs t ≡ not_found k
        → t < x
    rest zero k at le ih miss = absurd (omega arith)
    rest (suc j) k at le ih miss = ih j x r.1 miss at (omega arith)

scan-IsBinarySearch : IsBinarySearch self scan
scan-IsBinarySearch = record {
  found_at = λ xs. scan-found_at 0 xs;
  before = λ xs. scan-before 0 xs;
  behind = λ xs. scan-behind 0 xs;
}

-- Values 20 and 40 under timestamp 7.
abbrev two_values : TimerEntry ℕ
two_values = record { timestamp = 7; inner = 20 ∷ 40 ∷ [] }

not_thirty : (i y : ℕ) → get_elem? (20 ∷ 40 ∷ []) i ≡ some y → y ≢ 30
not_thirty zero y h = ground arith
not_thirty (suc zero) y h = ground arith
not_thirty (suc (suc i)) y h = cc

-- Two timestamps, the later one with two values.
abbrev two_entries : TimerList ℕ
two_entries =
    (3, record { timestamp = 3; inner = 1 ∷ [] })
    ∷ (9, record { timestamp = 9; inner = 2 ∷ 5 ∷ [] })
    ∷ []

insert-schedule_example :
    (events (insert 9 8 two_entries) ≡ schedule 9 8 (events two_entries))
    × IsOrdered (insert 9 8 two_entries)
insert-schedule_example = insert-schedule 9 8 two_entries (omega arith)

inserted : events (insert 9 8 two_entries) ≡ (3, 1) ∷ (9, 2) ∷ (9, 5) ∷ (9, 8) ∷ []
unfolding events insert Map.get Queue.append_at Map.update Entry.push_back
inserted = refl

abbrev later_entry : TimerList ℕ
later_entry = (9, record { timestamp = 9; inner = 2 ∷ 5 ∷ [] }) ∷ []
