-- ===== src/Syscall/Poll.antt =====
-- `poll` of open-coroutine-core/src/syscall/nio.rs over what the raw calls answer, one by
-- one; a loop that comes to the end of the answers is still running.
use open_coroutine.Base.{
  ℕ, ◌-◌, ◌*◌, ◌≤◌, ◌<◌, ◌≡◌, refl, ap, ◌⊎◌, inl, inr, ltb, ◌==◌, if◌then◌else◌, List, [], ◌∷◌,
  Bool, true, false, Option, none, some, ◌||◌, not, length, total, All, min, arith, ℤ, pos, negsuc,
  is_zero, Bool-cases, ltb,
}

-- `c_int::MAX`.
abbrev pub c_int_max : ℕ
c_int_max = 2147483647

-- The time left behind a wait of `x`; the greatest number stands for no limit.
abbrev pub less : ℕ → ℕ → ℕ → ℕ
less max t x = if t == max then t else if ltb x t then t - x else 0

-- The next interval between two looks, in milliseconds.
abbrev pub wider : ℕ → ℕ
wider x = if ltb x 16 then 2 * x else x

abbrev pub asked : {A : Type 0} → ℕ → Option (A × List ℕ) → Option (A × List ℕ)
asked wait none = none
asked wait (some (r, waits)) = some (r, wait ∷ waits)

-- The result and the waits, in milliseconds; `max` is the number that stands for no limit.
unfoldable pub poll_loop : ℕ → ℕ → ℕ → List ℤ → Option (ℤ × List ℕ)
poll_loop max t x [] = none
poll_loop max t x (r ∷ rest) =
    let again = poll_loop max (less max t x) (wider x) rest in
    if not (is_zero r) || (t == 0) then some (r, []) else asked (min t x) again

abbrev pub poll_time : ℤ → ℕ
poll_time (pos n) = n
poll_time (negsuc n) = c_int_max

unfoldable pub poll : ℤ → List ℤ → Option (ℤ × List ℕ)
unfolding poll_loop
poll timeout answers = poll_loop c_int_max (poll_time timeout) 1 answers

-- The intervals that doubling from 1 up to 16 goes through.
abbrev pub Interval : ℕ → Type 0
Interval x = (x ≡ 1) ⊎ (x ≡ 2) ⊎ (x ≡ 4) ⊎ (x ≡ 8) ⊎ (x ≡ 16)

pub wider-Interval : (x : ℕ) → Interval x → Interval (wider x)
wider-Interval x (inl e) = rw (e) (omega arith)
wider-Interval x (inr (inl e)) = rw (e) (omega arith)
wider-Interval x (inr (inr (inl e))) = rw (e) (omega arith)
wider-Interval x (inr (inr (inr (inl e)))) = rw (e) (omega arith)
wider-Interval x (inr (inr (inr (inr e)))) = rw (e) (omega arith)

less_lem : (max t x : ℕ) → t < max → less max t x ≡ t - min t x
less_lem max t x h = ground arith

stops-zero : (z : Bool) (t : ℕ) → (not z || (t == 0)) ≡ true → z ≡ true → 0 ≡ t
stops-zero true t e h = ground arith
stops-zero false t e h = absurd (ground arith)

goes_on : (z : Bool) (t : ℕ) → (not z || (t == 0)) ≡ false → 0 < t
goes_on true t e = ground arith
goes_on false t e = absurd (ground arith)

-- A result within a limit of `t`: the waits add up to at most `t`, and to exactly `t` when the call
-- ends without a result; none is longer than 16.
abbrev pub Within : ℕ → ℤ × List ℕ → Type 0
Within t (r, waits) =
    (total (λ w. w) waits ≤ t)
    × (is_zero r ≡ true → total (λ w. w) waits ≡ t)
    × All (λ w. w ≤ 16) waits

abbrev pub Ends : ℕ → Option (ℤ × List ℕ) → Type 0
Ends t ended = (e : ℤ × List ℕ) × (ended ≡ some e) × Within t e

within_longer :
    (max t x : ℕ) (again : Option (ℤ × List ℕ))
    → 0 < t
    → t < max
    → Interval x
    → Ends (less max t x) again
    → Ends t (asked (min t x) again)
within_longer max t x again h limited i ((r, waits), returned, (below, exact, short)) = (
  (r, min t x ∷ waits),
  ap (asked (min t x)) returned,
  (
    omega (arith, less_lem max t x limited),
    λ z. omega (arith, exact z, less_lem max t x limited),
    (omega arith, short),
  ),
)

pub poll_loop-Ends :
    (max t x : ℕ) (answers : List ℤ)
    → t < length answers
    → t < max
    → Interval x
    → Ends t (poll_loop max t x answers)
unfolding poll_loop
poll_loop-Ends max t x [] h limited i = absurd (omega arith)
poll_loop-Ends max t x (r ∷ rest) h limited i = elim (Bool-cases (not (is_zero r) || (t == 0))) [
  | inl stop ↦ rw (stop) ((r, []), refl, (omega arith, λ z. stops-zero (is_zero r) t stop z, tt))
  | inr go ↦
      let positive = goes_on (is_zero r) t go in
      rw (go) (
        within_longer max t x (poll_loop max (less max t x) (wider x) rest) positive limited i (
          poll_loop-Ends max (less max t x) (wider x) rest (omega (arith, less_lem max t x limited))
            (omega (arith, less_lem max t x limited)) (wider-Interval x i)))
]

-- poll with a limit of n milliseconds, looking often enough, ends; the waits it asks for add up to at
-- most n, to exactly n when it ends with no descriptor ready, and none is longer than 16.
pub poll_returns :
    (n : ℕ) (answers : List ℤ)
    → n < c_int_max
    → n < length answers
    → (e : ℤ × List ℕ) × (poll (pos n) answers ≡ some e) × Within n e
unfolding poll
poll_returns n answers limited h = poll_loop-Ends c_int_max n 1 answers h limited (inl refl)
