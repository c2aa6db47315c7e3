-- ===== src/Syscall/Select.antt =====
-- `select` of open-coroutine-core/src/syscall/nio.rs over what the raw calls answer, one by one; the loop
-- is that of poll with sets of descriptors that are put back.
use open_coroutine.Base.{
  ℕ, ◌+◌, ◌*◌, ◌%◌, ◌^◌, ◌<◌, ◌≡◌, refl, sym, ap, ◌∙◌, inl, inr, ◌==◌, if◌then◌else◌, List, [], ◌∷◌,
  Option, none, some, some-injective, length-map, ◌||◌, not, length, All, min, map, arith, ℤ,
  is_zero, u32_max, Bool-cases,
}
use open_coroutine.Syscall.Poll.{less, wider, asked, poll_loop, Within, Ends, poll_loop-Ends}

-- What the three pointers of select refer to, none for a null pointer; a set of descriptors is the
-- number with its bits.
pub record Sets : Type 0 where
  pub readfds : Option ℕ
  pub writefds : Option ℕ
  pub errorfds : Option ℕ

-- A `timeval`.
pub record Timeval : Type 0 where
  pub tv_sec : ℕ
  pub tv_usec : ℕ

-- What one raw call answers: its result, and what it leaves behind the pointers.
pub record Answer : Type 0 where
  pub result : ℤ
  pub left_sets : ℕ × ℕ × ℕ
  pub left_time : Timeval

-- How select ends: its result, the waits in milliseconds, the sets, and what every raw call was given.
pub record Selected : Type 0 where
  pub result : ℤ
  pub waits : List ℕ
  pub sets : Sets
  pub seen : List (Sets × Timeval)

-- To write through a pointer that is not null.
abbrev pub over : ℕ → Option ℕ → Option ℕ
over s none = none
over s (some old) = some s

abbrev pub overwrite : ℕ × ℕ × ℕ → Sets → Sets
overwrite (a, b, c) sets = record {
  readfds = over a (sets.readfds);
  writefds = over b (sets.writefds);
  errorfds = over c (sets.errorfds);
}

-- `s`: the caller's sets, all zero for a null pointer.
abbrev pub content : Option ℕ → ℕ
content none = 0
content (some s) = s

abbrev pub contents : Sets → ℕ × ℕ × ℕ
contents sets = (content (sets.readfds), content (sets.writefds), content (sets.errorfds))

abbrev pub no_time : Timeval
no_time = record { tv_sec = 0; tv_usec = 0 }

abbrev pub asked_selected : ℕ → Sets × Timeval → Option Selected → Option Selected
asked_selected wait given none = none
asked_selected wait given (some e) =
    some
      (record { result = e.result; waits = wait ∷ e.waits; sets = e.sets; seen = given ∷ e.seen })

unfoldable pub select_loop : ℕ → ℕ → ℕ × ℕ × ℕ → Sets → List Answer → Option Selected
select_loop t x s sets [] = none
select_loop t x s sets (a ∷ rest) =
    let after = overwrite (a.left_sets) sets in
    let again = select_loop (less u32_max t x) (wider x) s (overwrite s after) rest in
    if not (is_zero (a.result)) || (t == 0)
    then some (record { result = a.result; waits = []; sets = after; seen = (sets, no_time) ∷ [] })
    else asked_selected (min t x) (sets, no_time) again

-- The arithmetic of `c_uint` wraps around; a null `timeout` is none.
abbrev pub select_time : Option Timeval → ℕ
select_time none = u32_max
select_time (some t) = (t.tv_sec % 2 ^ 32 * 1000000 % 2 ^ 32 + t.tv_usec % 2 ^ 32) % 2 ^ 32

unfoldable pub select : Sets → Option Timeval → List Answer → Option Selected
unfolding select_loop
select sets timeout answers = select_loop (select_time timeout) 1 (contents sets) sets answers

over-over : (s : ℕ) (o : Option ℕ) → over (content o) (over s o) ≡ o
over-over s none = refl
over-over s (some old) = refl

-- The sets that are put back before the next raw call are the caller's.
overwrite-overwrite :
    (left : ℕ × ℕ × ℕ) (sets : Sets) → overwrite (contents sets) (overwrite left sets) ≡ sets
overwrite-overwrite (a, b, c) sets =
    rw (over-over a (sets.readfds), over-over b (sets.writefds), over-over c (sets.errorfds)) refl

outcome : Option Selected → Option (ℤ × List ℕ)
outcome none = none
outcome (some e) = some (e.result, e.waits)

outcome-asked :
    (wait : ℕ) (given : Sets × Timeval) (again : Option Selected)
    → outcome (asked_selected wait given again) ≡ asked wait (outcome again)
unfolding outcome
outcome-asked wait given none = refl
outcome-asked wait given (some e) = refl

-- The loop of select is that of poll, with another greatest number.
select_loop-poll_loop :
    (t x : ℕ) (sets : Sets) (answers : List Answer)
    → outcome (select_loop t x (contents sets) sets answers)
      ≡ poll_loop u32_max t x (map (λ a. a.result) answers)
unfolding select_loop poll_loop outcome
select_loop-poll_loop t x sets [] = refl
select_loop-poll_loop t x sets (a ∷ rest) = elim (Bool-cases (not (is_zero a.result) || (t == 0))) [
  | inl stop ↦ rw (stop) refl
  | inr go ↦ rw (go) (
      rw (overwrite-overwrite a.left_sets sets) (
        outcome-asked (min t x) (sets, no_time)
          (select_loop (less u32_max t x) (wider x) (contents sets) sets rest)
        ∙ ap (asked (min t x)) (select_loop-poll_loop (less u32_max t x) (wider x) sets rest)))
]

abbrev pub Given : Sets → Option Selected → Type 0
Given sets none = Unit
Given sets (some e) = All (λ given. given ≡ (sets, no_time)) e.seen

asked-Given :
    (sets : Sets) (wait : ℕ) (again : Option Selected)
    → Given sets again
    → Given sets (asked_selected wait (sets, no_time) again)
asked-Given sets wait none h = tt
asked-Given sets wait (some e) h = (refl, h)

select_loop-Given :
    (t x : ℕ) (sets : Sets) (answers : List Answer)
    → Given sets (select_loop t x (contents sets) sets answers)
unfolding select_loop
select_loop-Given t x sets [] = tt
select_loop-Given t x sets (a ∷ rest) = elim (Bool-cases (not (is_zero a.result) || (t == 0))) [
  | inl stop ↦ rw (stop) (refl, tt)
  | inr go ↦ rw (go) (
      rw (overwrite-overwrite a.left_sets sets) (
        asked-Given sets (min t x)
          (select_loop (less u32_max t x) (wider x) (contents sets) sets rest)
          (select_loop-Given (less u32_max t x) (wider x) sets rest)))
]

-- Every raw call of select that this loop makes is given the sets as the caller passed them and a
-- timeout of zero, whatever the raw calls before it left behind the pointers.
pub select-Given :
    (sets : Sets) (timeout : Option Timeval) (answers : List Answer)
    → Given sets (select sets timeout answers)
unfolding select
select-Given sets timeout answers = select_loop-Given (select_time timeout) 1 sets answers

from_outcome :
    (t : ℕ) (o : Option Selected)
    → Ends t (outcome o)
    → (e : Selected) × (o ≡ some e) × Within t (e.result, e.waits)
unfolding outcome
from_outcome t none (e, returned, within) = absurd (ground arith)
from_outcome t (some e) (f, returned, within) =
    (e, refl, rw (sym (some-injective (e.result, e.waits) f returned)) at within)

-- select with a limit of n microseconds, computed in a `c_uint` and less than its greatest number,
-- ends when it looks often enough; the waits it asks for, which are milliseconds, add up to at most
-- n, and to exactly n when no descriptor is ready: a thousand times
-- the limit. None is longer than 16 milliseconds.
pub select_returns :
    (sets : Sets) (t : Timeval) (answers : List Answer)
    → select_time (some t) < u32_max
    → select_time (some t) < length answers
    → (e : Selected) × (select sets (some t) answers ≡ some e)
      × Within (select_time (some t)) (e.result, e.waits)
unfolding select
select_returns sets t answers limited h =
    from_outcome (select_time (some t)) (select sets (some t) answers) (
      rw (select_loop-poll_loop (select_time (some t)) 1 sets answers) (
        poll_loop-Ends u32_max (select_time (some t)) 1 (map (λ a. a.result) answers)
          (omega (arith, length-map (λ a. a.result) answers)) limited (inl refl)))
