-- ===== src/Net/Skips.antt =====
-- The loops that `EventLoops::stop` of open-coroutine-core/src/net/core.rs reaches, skipping the
-- monitor's.
use open_coroutine.Base.{
  ℕ, zero, suc, ◌+◌, ◌-◌, ◌*◌, ◌%◌, ◌/◌, ◌<◌, ◌≡◌, ◌≢◌, ap, ◌∙◌, get_elem?, leb, ◌==◌, ◌∷◌, some,
  true, false, u64_max, Bool-cases, inl, inr, arith, ==→eq, leb→le,
}
use open_coroutine.Net.Loops.{next, reach}
use native.Mathlib.Nat.{div-add-mod, mul-add-mod_self_left, mod-eq_of_lt, mod-lt, mod_self}

next_other :
    (n index : ℕ)
    → 1 < n
    → index < u64_max
    → index % n ≢ 0
    → next n true index ≡ (index + 1, some (index % n, false))
unfolding next
next_other n index h below other = ground arith

next_monitor : (n index : ℕ) → 1 < n → index % n ≡ 0 → next n true index ≡ (1, some (1, false))
unfolding next
next_monitor n index h at = ground arith

reach_other :
    (times n index : ℕ)
    → 1 < n
    → index < u64_max
    → index % n ≢ 0
    → reach (suc times) n true index ≡ index % n ∷ reach times n true (index + 1)
unfolding reach
reach_other times n index h below other =
    let e = next_other n index h below other in
    rw (e, reach) (ap (λ p. index % n ∷ reach times n true p.0) e)

reach_monitor :
    (times n index : ℕ)
    → 1 < n
    → index % n ≡ 0
    → reach (suc times) n true index ≡ 1 ∷ reach times n true 1
unfolding reach
reach_monitor times n index h at =
    let e = next_monitor n index h at in rw (e, reach) (ap (λ p. 1 ∷ reach times n true p.0) e)

mod_suc : (n index : ℕ) → index % n + 1 < n → (index + 1) % n ≡ index % n + 1
mod_suc n index lt =
    ap (λ (i : ℕ). i % n)
      (let whole : index + 1 ≡ n * (index / n) + (index % n + 1) =
          omega (arith, div-add-mod index n) in
        whole)
    ∙ mul-add-mod_self_left n (index / n) (index % n + 1)
    ∙ mod-eq_of_lt lt

-- Between two visits to the monitor's number the loops follow one another.
along :
    (times n index k : ℕ)
    → 1 < n
    → index + k < u64_max
    → index % n ≢ 0
    → index % n + k < n
    → k < times
    → get_elem? (reach times n true index) k ≡ some (index % n + k)
along zero n index k h below other lt few = absurd (omega arith)
along (suc times) n index zero h below other lt few =
    rw (reach_other times n index h (omega arith) other, get_elem?) (ap some (omega arith))
along (suc times) n index (suc k) h below other lt few =
    let up = mod_suc n index (omega arith) in
    rw (reach_other times n index h (omega arith) other, get_elem?)
      (along times n (index + 1) k h (omega arith) (omega (arith, up)) (omega (arith, up))
          (omega arith)
        ∙ ap some (omega (arith, up)))

-- From the monitor's number on: it is skipped for the first loop, and the count starts again.
from_monitor :
    (times n index j : ℕ)
    → 1 < n
    → n < u64_max
    → index % n ≡ 0
    → 0 < j
    → j < n
    → j < times
    → get_elem? (reach times n true index) j ≡ some j
from_monitor zero n index j h below at pos lt few = absurd (omega arith)
from_monitor (suc times) n index zero h below at pos lt few = absurd (omega arith)
from_monitor (suc times) n index (suc j) h below at pos lt few =
    let one : 1 % n ≡ 1 = mod-eq_of_lt h in
    rw (reach_monitor times n index h at, get_elem?)
      (along times n 1 j h (omega arith) (omega (arith, one)) (omega (arith, one)) (omega arith)
        ∙ ap some (omega (arith, one)))

-- The numbers behind a start are passed one by one until the monitor's comes.
onto_monitor :
    (times n index k j p : ℕ)
    → 1 < n
    → index + k + 1 + n < u64_max
    → index % n ≢ 0
    → index % n + k + 1 ≡ n
    → 0 < j
    → j < n
    → p ≡ k + 1 + j
    → p < times
    → get_elem? (reach times n true index) p ≡ some j
onto_monitor zero n index k j p h below other last pos lt at few = absurd (omega arith)
onto_monitor (suc times) n index k j zero h below other last pos lt at few = absurd (omega arith)
onto_monitor (suc times) n index zero j (suc p) h below other last pos lt at few =
    let whole : index + 1 ≡ n * (index / n) + n = omega (arith, div-add-mod index n, last) in
    let wraps : (index + 1) % n ≡ 0 =
      ap (λ (i : ℕ). i % n) whole ∙ mul-add-mod_self_left n (index / n) n ∙ mod_self n in
    rw (reach_other times n index h (omega arith) other, get_elem?)
      (ap (get_elem? (reach times n true (index + 1))) (omega (arith, at))
        ∙ from_monitor times n (index + 1) j h (omega arith) wraps pos lt (omega arith))
onto_monitor (suc times) n index (suc k) j (suc p) h below other last pos lt at few =
    let up = mod_suc n index (omega arith) in
    rw (reach_other times n index h (omega arith) other, get_elem?)
      (onto_monitor times n (index + 1) k j p h (omega arith) (omega (arith, up))
        (omega (arith, up, last)) pos lt (omega arith) (omega arith))

-- On two loops or more, `stop` reaches every loop but the monitor's, wherever the index stands, as
-- long as the index does not come near the largest `usize` and no other thread counts it up meanwhile.
pub reach_others :
    (n index j : ℕ)
    → 1 < n
    → index + n + n < u64_max
    → 0 < j
    → j < n
    → (k : ℕ) × (get_elem? (reach n n true index) k ≡ some j)
reach_others n index j h below pos lt = elim (Bool-cases (index % n == 0)) [
  | inl at_monitor ↦ (j, from_monitor n n index j h (omega arith) (==→eq _ _ at_monitor) pos lt lt)
  | inr other ↦ elim (Bool-cases (leb (index % n) j)) [
    | inl ahead ↦
        let le = leb→le _ _ ahead in
        (
          j - index % n,
          along n n index (j - index % n) h (omega arith) (ground arith) (omega (arith, le))
                (omega (arith, le))
              ∙ ap some (omega (arith, le)),
        )
    | inr behind ↦
        let past : j < index % n = ground (arith, behind) in
        let small : index % n < n = mod-lt index (omega arith) in
        (
          n - index % n + j,
          onto_monitor n n index (n - index % n - 1) j (n - index % n + j) h (omega (arith, small))
              (ground arith) (omega (arith, small)) pos lt (omega (arith, small))
              (omega (arith, small, past)),
        )
  ]
]
