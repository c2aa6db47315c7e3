-- ===== src/Net/Loops.antt =====
-- `EventLoops` of open-coroutine-core/src/net/core.rs, built with the feature preemptive-schedule on
-- unix: loop number `MONITOR_CPU`, which is 0, is that of the monitor. `INDEX` is the state, and what
-- is called of a loop is only its number.
use open_coroutine.Base.{
  ℕ, zero, suc, ◌+◌, ◌-◌, ◌*◌, ◌%◌, ◌/◌, ◌≤◌, ◌<◌, ◌≡◌, ap, ◌∙◌, get_elem?, ltb, leb, leb→le, ◌==◌,
  if◌then◌else◌, List, [], ◌∷◌, Option, none, some, Bool, true, false, ◌&&◌, u64_max, Bool-cases,
  inl, inr, arith,
}
use native.Mathlib.Nat.{div-add-mod, mul-add-mod_self_left, mod-eq_of_lt, mod-lt, add-mod_right}

abbrev pub monitor_cpu : ℕ
monitor_cpu = 0

-- `INDEX.fetch_add(1)`.
abbrev pub counted : ℕ → ℕ
counted index = if index == u64_max then 0 else index + 1

-- `EventLoops::next` on `n` loops: the index left behind, and the number of the loop with whether it
-- is the monitor's; `none` where the code panics for want of the loop.
unfoldable pub next : ℕ → Bool → ℕ → ℕ × Option (ℕ × Bool)
next n skip_monitor index =
    if n == 0
    then (counted index, none)
    else if skip_monitor && (index % n == monitor_cpu)
    then (1, if ltb 1 n then some (1, false) else none)
    else (counted index, some (index % n, index % n == monitor_cpu))

-- The loops of `del_event`, `del_read_event`, `del_write_event` and `stop`: the loops that are
-- reached, in their order.
unfoldable pub reach : ℕ → ℕ → Bool → ℕ → List ℕ
unfolding next
reach zero n skip_monitor index = []
reach (suc times) n skip_monitor index =
    let (index', result) = next n skip_monitor index in
    let rest = reach times n skip_monitor index' in elim result [ some p ↦ p.0 ∷ rest | none ↦ [] ]

-- `wait_read_event` and `wait_write_event`: the loop on which the event is added, if it was not
-- added before, and the one that waits; that adding it succeeds is taken for granted.
unfoldable pub wait_event : ℕ → Bool → ℕ → ℕ × Option (Option ℕ × ℕ)
unfolding next
wait_event n added index =
    let (index', result) = next n false index in
    elim result [
      | none ↦ (index', none)
      | some p ↦
          let on = if added then none else some p.0 in
          if p.1
          then (let (index'', other) = next n true index' in
              (index'', elim other [ none ↦ none | some q ↦ some (on, q.0) ]))
          else (index', some (on, p.0))
    ]

next_kept :
    (n index : ℕ)
    → 1 < n
    → next n false index ≡ (counted index, some (index % n, index % n == monitor_cpu))
unfolding next
next_kept n index h = ground arith

-- On two loops or more, where the monitor need not be skipped, `next` finds the loop with the index's
-- remainder, and tells whether it is the monitor's.
pub next-bounds :
    (n index : ℕ)
    → 1 < n
    → ((next n false index).1 ≡ some (index % n, index % n == monitor_cpu)) × (index % n < n)
next-bounds n index h = (ap (λ p. p.1) (next_kept n index h), omega arith)

-- On two loops or more, where the monitor is to be skipped, `next` finds a loop among them which is
-- not the monitor's, whatever the index.
pub next_skips :
    (n index : ℕ)
    → 1 < n
    → (i : ℕ) × ((next n true index).1 ≡ some (i, false)) × (monitor_cpu < i) × (i < n)
unfolding next
next_skips n index h = elim (Bool-cases (index % n == monitor_cpu)) [
  | inl at_monitor ↦ (1, ground arith, omega arith, omega arith)
  | inr other ↦ (index % n, ground arith, ground arith, omega arith)
]

reach_step :
    (times n index : ℕ)
    → 1 < n
    → index < u64_max
    → reach (suc times) n false index ≡ index % n ∷ reach times n false (index + 1)
unfolding reach
reach_step times n index h below =
    rw (next_kept n index h, reach) (ap (λ i. index % n ∷ reach times n false i) (ground arith))

reach_at :
    (times n index k : ℕ)
    → 1 < n
    → index + times ≤ u64_max
    → k < times
    → get_elem? (reach times n false index) k ≡ some ((index + k) % n)
reach_at zero n index k h below lt = absurd (omega arith)
reach_at (suc times) n index zero h below lt =
    rw (reach_step times n index h (omega arith), get_elem?) (ap (λ i. some (i % n)) (omega arith))
reach_at (suc times) n index (suc k) h below lt =
    rw (reach_step times n index h (omega arith), get_elem?)
      (reach_at times n (index + 1) k h (omega arith) (omega arith)
        ∙ ap (λ i. some (i % n)) (omega arith))

-- How far behind the index a number stands among the remainders.
abbrev pub steps_to : ℕ → ℕ → ℕ → ℕ
steps_to n index j = if leb (index % n) j then j - index % n else j + n - index % n

steps_to_mod :
    (n index j : ℕ) → j < n → (steps_to n index j < n) × ((index + steps_to n index j) % n ≡ j)
steps_to_mod n index j lt = elim (Bool-cases (leb (index % n) j)) [
  | inl behind ↦
      let r : index % n ≤ j = leb→le _ _ behind in
      let whole : index + (j - index % n) ≡ n * (index / n) + j =
        omega (arith, div-add-mod index n, r) in
      rw behind (
        omega (arith, r, lt),
        ap (λ i. i % n) whole ∙ mul-add-mod_self_left n (index / n) j ∙ mod-eq_of_lt lt,
      )
  | inr before ↦
      let r : j < index % n = ground (arith, before) in
      let r' : index % n < n = mod-lt index (omega (arith, lt)) in
      let whole : index + (j + n - index % n) ≡ n * (index / n) + (j + n) =
        omega (arith, div-add-mod index n, r, r') in
      rw before (
        omega (arith, r, r'),
        ap (λ i. i % n) whole
            ∙ mul-add-mod_self_left n (index / n) (j + n)
            ∙ add-mod_right j n
            ∙ mod-eq_of_lt lt,
      )
]

-- On two loops or more, the deletion of an event reaches each of them, as long as the index does not
-- pass the largest `usize` meanwhile.
pub reach_all :
    (n index j : ℕ)
    → 1 < n
    → index + n ≤ u64_max
    → j < n
    → (k : ℕ) × (get_elem? (reach n n false index) k ≡ some j)
reach_all n index j h below lt =
    let (few, there) = steps_to_mod n index j lt in
    (
      steps_to n index j,
      reach_at n n index (steps_to n index j) h below few ∙ ap (λ i. some i) there,
    )
