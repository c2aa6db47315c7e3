-- ===== src/Syscall/Sleep.antt =====
-- `sleep`, `usleep` and `nanosleep` of open-coroutine-core/src/syscall/nio.rs. The n-th reading of the
-- clock is `clock n`; `none` stands for a loop that is still running when its fuel is used up.
use open_coroutine.Base.{
  ℕ, zero, suc, ◌+◌, ◌-◌, ◌*◌, ◌≤◌, ◌<◌, ◌≡◌, refl, ap, ◌∙◌, inl, inr, lt_or_ge, ltb, ◌==◌,
  if◌then◌else◌, List, [], ◌∷◌, Bool, false, Option, none, some, ◌||◌, length, get_elem?, arith, ℤ,
  pos, negsuc, is_negative, magnitude,
}
use open_coroutine.Timer.Deadline.{get_timeout_time}

-- A `timespec`.
pub record Timespec : Type 0 where
  pub tv_sec : ℤ
  pub tv_nsec : ℤ

-- How a call ends: its result, the error number, what is behind `rmtp` (none when it is null) and
-- the durations it waited for events, in nanoseconds.
pub record Slept : Type 0 where
  pub result : ℤ
  pub errno : ℕ
  pub remaining : Option Timespec
  pub waits : List ℕ

abbrev pub einval : ℕ
einval = 22

abbrev pub waited : ℕ → Option (List ℕ) → Option (List ℕ)
waited left none = none
waited left (some waits) = some (left ∷ waits)

-- The loop that the three functions share.
unfoldable pub sleep_until : ℕ → ℕ → (ℕ → ℕ) → Option (List ℕ)
sleep_until zero timeout clock = none
sleep_until (suc fuel) timeout clock =
    let again = sleep_until fuel timeout (λ n. clock (suc n)) in
    let left_time = timeout - clock 0 in if left_time == 0 then some [] else waited left_time again

abbrev pub finish : Option Timespec → Option (List ℕ) → Option Slept
finish remaining none = none
finish remaining (some waits) =
    some (record { result = pos 0; errno = 0; remaining = remaining; waits = waits })

-- The first reading sets the deadline, the others are the loop's.
unfoldable pub sleep_for : ℕ → ℕ → Option Timespec → (ℕ → ℕ) → Option Slept
unfolding sleep_until
sleep_for fuel dur remaining clock =
    finish remaining (sleep_until fuel (get_timeout_time dur (clock 0)) (λ n. clock (suc n)))

unfoldable pub sleep : ℕ → ℕ → (ℕ → ℕ) → Option Slept
unfolding sleep_for
sleep fuel secs clock = sleep_for fuel (secs * 1000000000) none clock

unfoldable pub usleep : ℕ → ℕ → (ℕ → ℕ) → Option Slept
unfolding sleep_for
usleep fuel microseconds clock = sleep_for fuel (microseconds * 1000) none clock

abbrev pub zero_if : Option Timespec → Option Timespec
zero_if none = none
zero_if (some t) = some (record { tv_sec = pos 0; tv_nsec = pos 0 })

abbrev pub refuse : Option Timespec → Option Slept
refuse rmtp = some (record { result = negsuc 0; errno = einval; remaining = rmtp; waits = [] })

abbrev pub is_invalid : Timespec → Bool
is_invalid t =
    is_negative (t.tv_sec) || is_negative (t.tv_nsec) || ltb 999999999 (magnitude (t.tv_nsec))

abbrev pub nanos : Timespec → ℕ
nanos t = magnitude (t.tv_sec) * 1000000000 + magnitude (t.tv_nsec)

-- A null `rqtp` is none; so is a null `rmtp`.
unfoldable pub nanosleep : ℕ → Option Timespec → Option Timespec → (ℕ → ℕ) → Option Slept
unfolding sleep_for
nanosleep fuel none rmtp clock = refuse rmtp
nanosleep fuel (some t) rmtp clock =
    let slept = sleep_for fuel (nanos t) (zero_if rmtp) clock in
    if is_invalid t then refuse rmtp else slept

-- The waits of a loop that ended at its first reading at or behind the deadline: before each wait the
-- clock was before the deadline, and the wait asked for is the time that was left.
unfoldable pub EndsAt : ℕ → (ℕ → ℕ) → List ℕ → Type 0
EndsAt timeout clock waits =
    (timeout ≤ clock (length waits))
    × ((i : ℕ) → i < length waits → get_elem? waits i ≡ some (timeout - clock i))
    × ((i : ℕ) → i < length waits → clock i < timeout)

ends_later :
    (timeout : ℕ) (clock : ℕ → ℕ) (waits : List ℕ)
    → clock 0 < timeout
    → EndsAt timeout (λ n. clock (suc n)) waits
    → EndsAt timeout clock ((timeout - clock 0) ∷ waits)
unfolding EndsAt
ends_later timeout clock waits h e = (e.0, lefts, befores)
  where
    lefts :
        (i : ℕ)
        → i < suc (length waits)
        → get_elem? ((timeout - clock 0) ∷ waits) i ≡ some (timeout - clock i)
    lefts zero b = refl
    lefts (suc i) b = e.1 i (omega arith)

    befores : (i : ℕ) → i < suc (length waits) → clock i < timeout
    befores zero b = h
    befores (suc i) b = e.2 i (omega arith)

sleep_until_late :
    (fuel timeout : ℕ) (clock : ℕ → ℕ)
    → timeout ≤ clock 0
    → sleep_until (suc fuel) timeout clock ≡ some []
unfolding sleep_until
sleep_until_late fuel timeout clock late = ground arith

sleep_until_early :
    (fuel timeout : ℕ) (clock : ℕ → ℕ)
    → clock 0 < timeout
    → sleep_until (suc fuel) timeout clock
      ≡ waited (timeout - clock 0) (sleep_until fuel timeout (λ n. clock (suc n)))
unfolding sleep_until
sleep_until_early fuel timeout clock early = ground arith

later :
    (fuel timeout : ℕ) (clock : ℕ → ℕ)
    → clock 0 < timeout
    → (waits : List ℕ) × (sleep_until fuel timeout (λ n. clock (suc n)) ≡ some waits)
      × EndsAt timeout (λ n. clock (suc n)) waits
    → (waits : List ℕ) × (sleep_until (suc fuel) timeout clock ≡ some waits)
      × EndsAt timeout clock waits
later fuel timeout clock early (waits, returned, ends) = (
  (timeout - clock 0) ∷ waits,
  sleep_until_early fuel timeout clock early ∙ ap (waited (timeout - clock 0)) returned,
  ends_later timeout clock waits early ends,
)

first_reading :
    (timeout : ℕ) (clock : ℕ → ℕ) (k : ℕ)
    → clock 0 < timeout
    → timeout ≤ clock k
    → (j : ℕ) × (k ≡ suc j)
first_reading timeout clock zero early late = absurd (omega arith)
first_reading timeout clock (suc j) early late = (j, refl)

pub sleep_until-EndsAt :
    (fuel timeout : ℕ) (clock : ℕ → ℕ) (k : ℕ)
    → k < fuel
    → timeout ≤ clock k
    → (waits : List ℕ) × (sleep_until fuel timeout clock ≡ some waits) × EndsAt timeout clock waits
unfolding EndsAt
sleep_until-EndsAt zero timeout clock k h late = absurd (omega arith)
sleep_until-EndsAt (suc fuel) timeout clock k h late = elim (lt_or_ge (clock 0) timeout) [
  | inr now ↦ (
    [],
    sleep_until_late fuel timeout clock now,
    (now, λ i b. absurd (omega arith), λ i b. absurd (omega arith)),
  )
  | inl before ↦
      let (j, e) = first_reading timeout clock k before late in
      later fuel timeout clock before
        (sleep_until-EndsAt fuel timeout (λ n. clock (suc n)) j (omega arith) (rw e at late))
]

sleep_for-EndsAt :
    (fuel dur : ℕ) (remaining : Option Timespec) (clock : ℕ → ℕ) (k : ℕ)
    → k < fuel
    → get_timeout_time dur (clock 0) ≤ clock (suc k)
    → (waits : List ℕ) × (sleep_for fuel dur remaining clock
        ≡ some (record { result = pos 0; errno = 0; remaining = remaining; waits = waits }))
      × EndsAt (get_timeout_time dur (clock 0)) (λ n. clock (suc n)) waits
unfolding sleep_for
sleep_for-EndsAt fuel dur remaining clock k h late =
    let (waits, returned, ends) =
      sleep_until-EndsAt fuel (get_timeout_time dur (clock 0)) (λ n. clock (suc n)) k h late in
    (waits, ap (finish remaining) returned, ends)

-- nanosleep with a valid time returns 0 with the error number reset and `rmtp` zeroed, once the clock
-- reaches the deadline set at its first reading. It does not return before a reading at or behind the
-- deadline, and each wait it asks for is the time that was left at the reading before it.
pub nanosleep-EndsAt :
    (fuel : ℕ) (t : Timespec) (rmtp : Option Timespec) (clock : ℕ → ℕ) (k : ℕ)
    → is_invalid t ≡ false
    → k < fuel
    → get_timeout_time (nanos t) (clock 0) ≤ clock (suc k)
    → (waits : List ℕ) × (nanosleep fuel (some t) rmtp clock
        ≡ some (record { result = pos 0; errno = 0; remaining = zero_if rmtp; waits = waits }))
      × EndsAt (get_timeout_time (nanos t) (clock 0)) (λ n. clock (suc n)) waits
unfolding nanosleep
nanosleep-EndsAt fuel t rmtp clock k valid h late =
    rw (valid) (sleep_for-EndsAt fuel (nanos t) (zero_if rmtp) clock k h late)
