-- ===== src/Timer/Order.antt =====
-- What a `TimerList` holds: a queue of timestamped values in the order of their timestamps, and of
-- their insertion where the timestamps are equal.
use open_coroutine.Base.{
  ℕ, suc, ◌+◌, ◌≤◌, ◌<◌, ◌≡◌, refl, sym, ap, ◌↔◌, ◌==◌, ltb, if◌then◌else◌, List, [], ◌∷◌, ◌++◌,
  inl, inr, map, none, some, Bool, true, false, arith, length, All, Option-cases, Bool-cases,
}
use open_coroutine.Timer.Entry.{TimerEntry}
use open_coroutine.Timer.Entry
use open_coroutine.Timer.Map.{
  From, From-mono, get, get-some_bound, insert-From, update-From, remove-From,
}
use open_coroutine.Timer.Map
use open_coroutine.Timer.Queue.{
  TimerList, value_count, insert, is_empty, pop_front, append_at, insert_new,
}

module _ {T : Type 0} where
  abbrev tagged : ℕ → List T → List (ℕ × T)
  tagged k = map (λ x. (k, x))

  -- The values with their timestamps, in the order in which they come out.
  unfoldable pub events : TimerList T → List (ℕ × T)
  events [] = []
  events ((k, e) ∷ l) = map (λ x. (k, x)) e.inner ++ events l

  -- The abstract insertion: behind all that is due at the same time or earlier.
  unfoldable pub schedule : ℕ → T → List (ℕ × T) → List (ℕ × T)
  schedule ts t [] = (ts, t) ∷ []
  schedule ts t ((s, x) ∷ q) = if ltb ts s then (ts, t) ∷ (s, x) ∷ q else (s, x) ∷ schedule ts t q

  -- The keys rise.
  abbrev pub IsOrdered : TimerList T → Type 0
  IsOrdered l = From 0 l

  -- Every value is due later.
  abbrev pub DueAfter : ℕ → List (ℕ × T) → Type 0
  DueAfter ts q = All (λ p. ts < p.0) q

  tagged-DueAfter :
      (ts k : ℕ) (xs : List T) (q : List (ℕ × T))
      → ts < k
      → DueAfter ts q
      → DueAfter ts (tagged k xs ++ q)
  tagged-DueAfter ts k [] q lt d = d
  tagged-DueAfter ts k (x ∷ xs) q lt d = (lt, tagged-DueAfter ts k xs q lt d)

  pub events-DueAfter : (ts n : ℕ) (l : TimerList T) → ts < n → From n l → DueAfter ts (events l)
  unfolding events
  events-DueAfter ts n [] lt s = tt
  events-DueAfter ts n ((k, e) ∷ l) lt s =
      tagged-DueAfter ts k e.inner (events l) (omega arith)
        (events-DueAfter ts (suc k) l (omega arith) s.1)

  schedule_first :
      (ts : ℕ) (t : T) (q : List (ℕ × T)) → DueAfter ts q → schedule ts t q ≡ (ts, t) ∷ q
  unfolding schedule
  schedule_first ts t [] d = refl
  schedule_first ts t ((s, x) ∷ q) d = ground arith

  schedule_behind :
      (ts k : ℕ) (t : T) (xs : List T) (q : List (ℕ × T))
      → k ≤ ts
      → schedule ts t (tagged k xs ++ q) ≡ tagged k xs ++ schedule ts t q
  unfolding schedule
  schedule_behind ts k t [] q le = refl
  schedule_behind ts k t (x ∷ xs) q le = ground (arith, schedule_behind ts k t xs q le)

  tagged-append :
      (k : ℕ) (xs : List T) (x : T) (q : List (ℕ × T))
      → tagged k (xs ++ x ∷ []) ++ q ≡ tagged k xs ++ ((k, x) ∷ q)
  tagged-append k [] x q = refl
  tagged-append k (y ∷ ys) x q = ap (◌∷◌ (k, y)) (tagged-append k ys x q)

  -- Where the map has an entry at the timestamp, the value goes to its back.
  events-append_at :
      (ts n : ℕ) (t : T) (l : TimerList T) (e : TimerEntry T)
      → From n l
      → get ts l ≡ some e
      → events (append_at ts t l) ≡ schedule ts t (events l)
  unfolding events append_at get Map.update Entry.push_back
  events-append_at ts n t [] e s h = cc
  events-append_at ts n t ((k, v) ∷ l) e s h = elim (Bool-cases (k == ts)) [
    | inl here ↦ ground (
      arith,
      schedule_behind ts k t v.inner (events l),
      schedule_first ts t (events l) (events-DueAfter ts (suc k) l (ground arith) s.1),
      tagged-append k v.inner t (events l),
    )
    | inr there ↦ ground (
      arith,
      events-append_at ts (suc k) t l e s.1,
      schedule_behind ts k t v.inner (events l),
      get-some_bound ts (suc k) l e s.1,
    )
  ]

  -- Where it has none, a new entry is put between those due earlier and those due later.
  events-insert_new :
      (ts n : ℕ) (t : T) (l : TimerList T)
      → From n l
      → get ts l ≡ none
      → events (insert_new ts t l none) ≡ schedule ts t (events l)
  unfolding events insert_new get Map.insert Entry.push_back Entry.new
  events-insert_new ts n t [] s h = sym (schedule_first ts t [] tt)
  events-insert_new ts n t ((k, v) ∷ l) s h = ground (
    arith,
    schedule_first ts t (events ((k, v) ∷ l)),
    events-DueAfter ts k ((k, v) ∷ l),
    schedule_behind ts k t v.inner (events l),
    events-insert_new ts (suc k) t l s.1,
  )

  append_at-From : (ts n : ℕ) (t : T) (l : TimerList T) → From n l → From n (append_at ts t l)
  unfolding append_at
  append_at-From ts n t l s = update-From ts n _ l s

  insert_new-From :
      (ts n : ℕ) (t : T) (l : TimerList T) → n ≤ ts → From n l → From n (insert_new ts t l none)
  unfolding insert_new
  insert_new-From ts n t l le s = insert-From ts n _ l le s

  -- Inserting into a list whose keys rise puts the value behind all values due at the same time or
  -- earlier and before all that are due later, and changes nothing else; the keys still rise.
  pub insert-schedule :
      (ts : ℕ) (t : T) (l : TimerList T)
      → IsOrdered l
      → (events (insert ts t l) ≡ schedule ts t (events l)) × IsOrdered (insert ts t l)
  unfolding insert
  insert-schedule ts t l s = elim (Option-cases (get ts l)) [
    | inl fresh ↦
        rw (fresh, insert)
          (rw fresh (events-insert_new ts 0 t l s fresh, insert_new-From ts 0 t l (omega arith) s))
    | inr (e, there) ↦
        rw (there, insert) (events-append_at ts 0 t l e s there, append_at-From ts 0 t l s)
  ]

  -- The first entry of a list whose keys rise holds exactly the values that come out first: all of
  -- the entry are due at its key, all that stay behind are due strictly later, none is lost, and
  -- the keys of what is left still rise.
  pub pop_front-earliest :
      (k : ℕ) (e : TimerEntry T) (l l' : TimerList T)
      → IsOrdered l
      → pop_front l ≡ (l', some (k, e))
      → (events l ≡ map (λ x. (k, x)) e.inner ++ events l') × DueAfter k (events l') × IsOrdered l'
  unfolding pop_front events
  pop_front-earliest k e [] l' s h = absurd (ground arith)
  pop_front-earliest k e ((j, v) ∷ l) l' s h =
      let left : l ≡ l' = ap (λ r. r.0) h in
      let key : j ≡ k = cc in
      let entry : v ≡ e = cc in
      rw (← left, ← key, ← entry)
        (refl, events-DueAfter j (suc j) l (omega arith) s.1, From-mono l (omega arith) s.1)

  value_count-events_aux :
      (k : ℕ) (xs : List T) (q : List (ℕ × T)) → length (tagged k xs ++ q) ≡ length xs + length q
  value_count-events_aux k [] q = omega arith
  value_count-events_aux k (x ∷ xs) q = omega (arith, value_count-events_aux k xs q)

  -- `value_count` counts the values, not the entries.
  pub value_count-events : (l : TimerList T) → value_count l ≡ length (events l)
  unfolding value_count events Entry.len
  value_count-events [] = refl
  value_count-events ((k, e) ∷ l) =
      omega (arith, value_count-events_aux k e.inner (events l), value_count-events l)

  is_empty-nil : (e : TimerEntry T) → Entry.is_empty e ≡ true → e.inner ≡ []
  unfolding Entry.is_empty
  is_empty-nil e h = ground arith

  is_empty-cons :
      (e : TimerEntry T) → Entry.is_empty e ≡ false → (x : T) × (xs : List T) × (e.inner ≡ x ∷ xs)
  unfolding Entry.is_empty
  is_empty-cons e h = go e.inner h
    where
      go :
          (ys : List T)
          → elim ys as (λ _. Bool) [ [] ↦ true | _ ∷ _ ↦ false ] ≡ false
          → (x : T) × (xs : List T) × (ys ≡ x ∷ xs)
      go [] h = cc
      go (y ∷ ys) h = (y, ys, refl)

  -- `is_empty` holds exactly when no value is left, entries without values not counting.
  pub is_empty-events : (l : TimerList T) → (is_empty l ≡ true) ↔ (events l ≡ [])
  unfolding is_empty events
  is_empty-events [] = (λ _. refl, λ _. refl)
  is_empty-events ((k, e) ∷ l) = elim (Bool-cases (Entry.is_empty e)) [
    | inl empty ↦ rw (empty, is_empty-nil e empty) (is_empty-events l)
    | inr full ↦ let (x, xs, eq) = is_empty-cons e full in rw (full, eq) (λ h. cc, λ h. cc)
  ]
