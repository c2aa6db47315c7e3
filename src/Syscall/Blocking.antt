-- ===== src/Syscall/Blocking.antt =====
-- The flags of a descriptor: open-coroutine-core/src/syscall/common.rs with its macro
-- `impl_non_blocking`. `fcntl` is a parameter: what `F_GETFL` answers, and whether `F_SETFL` succeeds.
use open_coroutine.Base.{
  ℕ, ◌≡◌, refl, ap, ◌∙◌, Bool, true, false, not, Option, none, some, if◌then◌else◌, Bool-cases, ℤ,
  inl, inr,
}

-- The flags that matter: whether the descriptor is non-blocking, and the others.
pub record Flags : Type 0 where
  pub non_blocking : Bool
  pub others : ℕ

-- The system behind `fcntl`: `none` where `F_GETFL` fails, and the flags behind a `F_SETFL`, none where
-- it fails and changes nothing.
pub record Fcntl : Type 0 where
  pub get : Flags → Option Flags
  pub set : Flags → Flags → Option Flags

-- `set_non_blocking_flag`: the descriptor's flags behind it, and whether it succeeded.
abbrev pub set_result : Flags → Option Flags → Flags × Bool
set_result f none = (f, false)
set_result f (some new) = (new, true)

abbrev pub with_flags : Fcntl → Bool → Flags → Option Flags → Flags × Bool
with_flags fcntl on f none = (f, false)
with_flags fcntl on f (some flags) = set_result f (fcntl.set (record flags { non_blocking = on }) f)

unfoldable pub set_non_blocking_flag : Fcntl → Bool → Flags → Flags × Bool
set_non_blocking_flag fcntl on f = with_flags fcntl on f (fcntl.get f)

-- `set_non_blocking` and `set_blocking`: none where the assertion panics.
abbrev pub asserted : Flags × Bool → Option Flags
asserted (f, true) = some f
asserted (f, false) = none

unfoldable pub set_non_blocking : Fcntl → Flags → Option Flags
unfolding set_non_blocking_flag
set_non_blocking fcntl f = asserted (set_non_blocking_flag fcntl true f)

unfoldable pub set_blocking : Fcntl → Flags → Option Flags
unfolding set_non_blocking_flag
set_blocking fcntl f = asserted (set_non_blocking_flag fcntl false f)

abbrev pub non_blocking_of : Option Flags → Bool
non_blocking_of none = false
non_blocking_of (some flags) = flags.non_blocking

unfoldable pub is_non_blocking : Fcntl → Flags → Bool
is_non_blocking fcntl f = non_blocking_of (fcntl.get f)

unfoldable pub is_blocking : Fcntl → Flags → Bool
unfolding is_non_blocking
is_blocking fcntl f = not (is_non_blocking fcntl f)

-- How the expression inside the macro ends: with a value, or by returning from the whole function.
pub data Exit : Type 0 where
  value early : ℤ → Exit

abbrev finished : Option Flags → ℤ → Option (ℤ × Flags)
finished none r = none
finished (some f) r = some (r, f)

-- What is behind the expression, if the descriptor was blocking.
abbrev restored : Fcntl → Exit → Flags → Option (ℤ × Flags)
restored fcntl (value r) f = finished (set_blocking fcntl f) r
restored fcntl (early r) f = some (r, f)

abbrev pub result_of : Exit → ℤ
result_of (value r) = r
result_of (early r) = r

abbrev around : Fcntl → (Flags → Exit) → Option Flags → Option (ℤ × Flags)
around fcntl body none = none
around fcntl body (some f) = restored fcntl (body f) f

-- `impl_non_blocking` around an expression that is given the descriptor's flags: the result and the
-- flags behind it, or none for a panic.
unfoldable pub impl_non_blocking : Fcntl → (Flags → Exit) → Flags → Option (ℤ × Flags)
unfolding is_blocking set_non_blocking set_blocking
impl_non_blocking fcntl body f =
    if is_blocking fcntl f
    then around fcntl body (set_non_blocking fcntl f)
    else some (result_of (body f), f)

-- How a loop inside the macro stands: it is running (none), or ended in a panic (some none) or with a
-- value; and the same with the descriptor's flags.
abbrev pub Course : Type 0 → Type 0
Course A = Option (Option A)

abbrev pub with_value : {A : Type 0} → A → Option Flags → Option (A × Flags)
with_value r none = none
with_value r (some f) = some (r, f)

-- Behind the loop: the flags are set back where the descriptor was blocking. A panic skips that.
abbrev pub set_back : {A : Type 0} → Fcntl → Bool → Flags → Course A → Course (A × Flags)
set_back fcntl blocking f none = none
set_back fcntl blocking f (some none) = some none
set_back fcntl true f (some (some r)) = some (with_value r (set_blocking fcntl f))
set_back fcntl false f (some (some r)) = some (some (r, f))

abbrev pub made_non_blocking : {A : Type 0} → Fcntl → Course A → Option Flags → Course (A × Flags)
made_non_blocking fcntl course none = some none
made_non_blocking fcntl course (some f) = set_back fcntl true f course

-- `impl_non_blocking` around a loop, which is not reached where the macro panics before it.
unfoldable pub non_blocking_loop : {A : Type 0} → Fcntl → Course A → Flags → Course (A × Flags)
non_blocking_loop fcntl course f =
    if is_blocking fcntl f
    then made_non_blocking fcntl course (set_non_blocking fcntl f)
    else set_back fcntl false f course

-- A descriptor that is open: its flags are read, and what is set is what it has.
unfoldable pub IsOpen : Fcntl → Type 0
IsOpen fcntl = ((f : Flags) → fcntl.get f ≡ some f) × ((new f : Flags) → fcntl.set new f ≡ some new)

-- The flags that the expression leaves a descriptor with.
abbrev pub left_by : Exit → Flags → Flags
left_by (value r) f = f
left_by (early r) f = record f { non_blocking = true }

pub is_blocking-IsOpen :
    (fcntl : Fcntl) (f : Flags) → IsOpen fcntl → is_blocking fcntl f ≡ not f.non_blocking
unfolding IsOpen is_blocking is_non_blocking
is_blocking-IsOpen fcntl f (opened, sets) = ap (λ o. not (non_blocking_of o)) (opened f)

pub set_flag-IsOpen :
    (fcntl : Fcntl) (on : Bool) (f : Flags)
    → IsOpen fcntl
    → set_non_blocking_flag fcntl on f ≡ (record f { non_blocking = on }, true)
unfolding IsOpen set_non_blocking_flag
set_flag-IsOpen fcntl on f (opened, sets) =
    ap (with_flags fcntl on f) (opened f)
    ∙ ap (set_result f) (sets (record f { non_blocking = on }) f)

as_it_is : (f : Flags) → f.non_blocking ≡ true → record f { non_blocking = true } ≡ f
as_it_is f e = rw (e) refl

pub as_it_was : (f : Flags) → f.non_blocking ≡ false → record f { non_blocking = false } ≡ f
as_it_was f e = rw (e) refl

restored-left_by :
    (fcntl : Fcntl) (x : Exit) (f : Flags)
    → IsOpen fcntl
    → f.non_blocking ≡ false
    → restored fcntl x (record f { non_blocking = true }) ≡ some (result_of x, left_by x f)
unfolding set_blocking
restored-left_by fcntl (value r) f opened e =
    rw (set_flag-IsOpen fcntl false (record f { non_blocking = true }) opened)
      (ap (λ g. some (r, g)) (as_it_was f e))
restored-left_by fcntl (early r) f opened e = refl

left_by_same : (x : Exit) (f : Flags) → f.non_blocking ≡ true → left_by x f ≡ f
left_by_same (value r) f e = refl
left_by_same (early r) f e = as_it_is f e

pub is_blocking_closed :
    (fcntl : Fcntl) (f : Flags) → fcntl.get f ≡ none → is_blocking fcntl f ≡ true
unfolding is_blocking is_non_blocking
is_blocking_closed fcntl f closed = ap (λ o. not (non_blocking_of o)) closed

-- On an open descriptor the macro does not panic; the expression sees the descriptor non-blocking, its
-- value is the result, and the flags are as before if it ended with a value. If it returned from the
-- whole function, the descriptor is left non-blocking.
pub impl_non_blocking-left_by :
    (fcntl : Fcntl) (body : Flags → Exit) (f : Flags)
    → IsOpen fcntl
    → impl_non_blocking fcntl body f
      ≡ some (
        result_of (body (record f { non_blocking = true })),
        left_by (body (record f { non_blocking = true })) f,
      )
unfolding impl_non_blocking set_non_blocking
impl_non_blocking-left_by fcntl body f opened = elim (Bool-cases f.non_blocking) [
  | inl e ↦
      rw (is_blocking-IsOpen fcntl f opened ∙ ap not e)
        (rw (as_it_is f e, left_by_same (body f) f e) refl)
  | inr e ↦ rw (is_blocking-IsOpen fcntl f opened ∙ ap not e) (
      ap (λ r. around fcntl body (asserted r)) (set_flag-IsOpen fcntl true f opened)
      ∙ (restored-left_by fcntl (body (record f { non_blocking = true })) f opened e))
]

-- On a descriptor that is not open, where reading the flags fails, the macro panics and the expression
-- is not reached.
pub impl_non_blocking_closed :
    (fcntl : Fcntl) (body : Flags → Exit) (f : Flags)
    → fcntl.get f ≡ none
    → impl_non_blocking fcntl body f ≡ none
unfolding impl_non_blocking set_non_blocking set_non_blocking_flag
impl_non_blocking_closed fcntl body f closed =
    rw (is_blocking_closed fcntl f closed)
      (ap (λ o. around fcntl body (asserted (with_flags fcntl true f o))) closed)

-- The same course, with these flags.
abbrev pub keeping : {A : Type 0} → Flags → Course A → Course (A × Flags)
keeping f none = none
keeping f (some none) = some none
keeping f (some (some r)) = some (some (r, f))

set_back_open :
    {A : Type 0} (fcntl : Fcntl) (f : Flags) (course : Course A)
    → IsOpen fcntl
    → f.non_blocking ≡ false
    → set_back fcntl true (record f { non_blocking = true }) course ≡ keeping f course
unfolding set_blocking
set_back_open fcntl f none opened e = refl
set_back_open fcntl f (some none) opened e = refl
set_back_open fcntl f (some (some r)) opened e =
    rw (set_flag-IsOpen fcntl false (record f { non_blocking = true }) opened)
      (ap (λ g. some (some (r, g))) (as_it_was f e))

set_back_idle :
    {A : Type 0} (fcntl : Fcntl) (f : Flags) (course : Course A)
    → set_back fcntl false f course ≡ keeping f course
set_back_idle fcntl f none = refl
set_back_idle fcntl f (some none) = refl
set_back_idle fcntl f (some (some r)) = refl

-- On an open descriptor the loop runs, and the flags are as before behind it.
pub non_blocking_loop-keeping :
    {A : Type 0} (fcntl : Fcntl) (course : Course A) (f : Flags)
    → IsOpen fcntl
    → non_blocking_loop fcntl course f ≡ keeping f course
unfolding non_blocking_loop set_non_blocking
non_blocking_loop-keeping fcntl course f opened = elim (Bool-cases f.non_blocking) [
  | inl e ↦ rw (is_blocking-IsOpen fcntl f opened ∙ ap not e) (set_back_idle fcntl f course)
  | inr e ↦ rw (is_blocking-IsOpen fcntl f opened ∙ ap not e) (
      ap (λ r. made_non_blocking fcntl course (asserted r)) (set_flag-IsOpen fcntl true f opened)
      ∙ set_back_open fcntl f course opened e)
]

pub non_blocking_loop_closed :
    {A : Type 0} (fcntl : Fcntl) (course : Course A) (f : Flags)
    → fcntl.get f ≡ none
    → non_blocking_loop fcntl course f ≡ some none
unfolding non_blocking_loop set_non_blocking set_non_blocking_flag
non_blocking_loop_closed fcntl course f closed =
    rw (is_blocking_closed fcntl f closed)
      (ap (λ o. made_non_blocking fcntl course (asserted (with_flags fcntl true f o))) closed)
