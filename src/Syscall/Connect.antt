-- ===== src/Syscall/Connect.antt =====
-- `connect`, `shutdown` and `close` of open-coroutine-core/src/syscall/nio.rs. The error number is
-- followed through; what the system answers in the n-th turn that waits is `rounds n`, and `none`
-- stands for a loop that is still running when its fuel is used up.
use open_coroutine.Base.{
  ℕ, zero, suc, ◌≡◌, ◌≢◌, ◌⊎◌, inl, inr, refl, ap, Bool, true, false, not, ◌&&◌, ◌||◌, ◌==◌, Option,
  none, some, if◌then◌else◌, Bool-cases, ℤ, pos, negsuc, is_zero, ==→eq, arith,
}
use open_coroutine.Syscall.Blocking.{
  Flags, Fcntl, Exit, value, early, impl_non_blocking, IsOpen, impl_non_blocking-left_by,
}

abbrev pub eintr : ℕ
eintr = 4

abbrev pub enotconn : ℕ
enotconn = 107

abbrev pub etimedout : ℕ
etimedout = 110

abbrev pub einprogress : ℕ
einprogress = 115

-- One turn: the error number where waiting for the socket fails, what getsockopt and getpeername
-- return with the error number behind them, and the socket's pending error.
pub record Round : Type 0 where
  pub wait_error : Option ℕ
  pub getsockopt : ℤ × ℕ
  pub err : ℕ
  pub getpeername : ℤ × ℕ

-- The result and the error number.
abbrev pub Result : Type 0
Result = ℤ × ℕ

-- What a turn that waits comes to: the result that ends the loop, or the error number it goes on with.
abbrev pub Turn : Type 0
Turn = Result ⊎ ℕ

abbrev look : Round → Turn
look round =
    if not (is_zero (round.getsockopt.0))
    then inl (negsuc 0, round.getsockopt.1)
    else if not (round.err == 0)
    then inl (negsuc 0, round.err)
    else if is_zero (round.getpeername.0)
    then inl (pos 0, 0)
    else inr (round.getpeername.1)

abbrev wait_error_or : Option ℕ → Turn → Turn
wait_error_or none turn = turn
wait_error_or (some errno) turn = inl (negsuc 0, errno)

unfoldable pub turn : Round → Turn
turn round = wait_error_or (round.wait_error) (look round)

unfoldable pub connect_loop : ℕ → ℕ → (ℕ → Round) → Option Result
unfolding turn
connect_loop zero errno rounds = none
connect_loop (suc fuel) errno rounds =
    if errno == einprogress || errno == enotconn
    then elim (turn (rounds 0)) [
      | inl result ↦ some result
      | inr next ↦ connect_loop fuel next (λ n. rounds (suc n))
    ]
    else if not (errno == eintr)
    then some (negsuc 0, errno)
    else connect_loop fuel errno rounds

-- What is behind the loop: a timeout is reported as a connection in progress.
abbrev pub renamed : Result → Result
renamed (pos n, errno) = (pos n, errno)
renamed (negsuc n, errno) =
    (negsuc n, (if n == 0 && errno == etimedout then einprogress else errno))

abbrev pub ended : Option Result → Option (Exit × ℕ)
ended none = none
ended (some result) = some (value ((renamed result).0), (renamed result).1)

-- The expression inside the macro, where the raw connect returns `raw`.
unfoldable pub connect_body : ℕ → Result → (ℕ → Round) → Option (Exit × ℕ)
unfolding connect_loop
connect_body fuel raw rounds =
    if is_zero (raw.0) then some (early (raw.0), 0) else ended (connect_loop fuel (raw.1) rounds)

abbrev around : Fcntl → Flags → Option (Exit × ℕ) → Option (Option (ℤ × Flags) × ℕ)
around fcntl f none = none
around fcntl f (some (exit, errno)) = some (impl_non_blocking fcntl (λ g. exit) f, errno)

-- `connect`: the result with the descriptor's flags, none for a panic, and the error number.
unfoldable pub connect : ℕ → Fcntl → Flags → Result → (ℕ → Round) → Option (Option (ℤ × Flags) × ℕ)
unfolding connect_body
connect fuel fcntl f raw rounds = around fcntl f (connect_body fuel raw rounds)

-- A raw connect that is interrupted leaves an error number that no turn changes: the loop does not end,
-- however long it runs.
interrupted_loops : (fuel : ℕ) (rounds : ℕ → Round) → connect_loop fuel eintr rounds ≡ none
unfolding connect_loop
interrupted_loops zero rounds = refl
interrupted_loops (suc fuel) rounds = interrupted_loops fuel rounds

-- connect whose raw call fails with EINTR never returns, however long its loop runs and whatever the
-- system would answer.
pub connect_interrupted :
    (fuel n : ℕ) (fcntl : Fcntl) (f : Flags) (rounds : ℕ → Round)
    → connect fuel fcntl f (negsuc n, eintr) rounds ≡ none
unfolding connect connect_body
connect_interrupted fuel n fcntl f rounds = rw (interrupted_loops fuel rounds) refl

-- How a loop may end: with 0 and no error number, or with -1.
abbrev LoopEnds : Result → Type 0
LoopEnds (r, errno) = ((r ≡ pos 0) × (errno ≡ 0)) ⊎ (r ≡ negsuc 0)

abbrev TurnEnds : Turn → Type 0
TurnEnds (inl result) = LoopEnds result
TurnEnds (inr errno) = Unit

abbrev MayEnd : Option Result → Type 0
MayEnd none = Unit
MayEnd (some result) = LoopEnds result

either_turn : (b : Bool) (x y : Turn) → TurnEnds x → TurnEnds y → TurnEnds (if b then x else y)
either_turn true x y hx hy = hx
either_turn false x y hx hy = hy

waited_turn : (e : Option ℕ) (x : Turn) → TurnEnds x → TurnEnds (wait_error_or e x)
waited_turn none x h = h
waited_turn (some errno) x h = inr refl

turn-TurnEnds : (round : Round) → TurnEnds (turn round)
unfolding turn
turn-TurnEnds round = waited_turn round.wait_error (look round) (
    either_turn (not (is_zero (round.getsockopt.0))) _ _ (inr refl) (
      either_turn (not (round.err == 0)) _ _ (inr refl)
        (either_turn (is_zero (round.getpeername.0)) _ _ (inl (refl, refl)) tt)))

either_end : (b : Bool) (x y : Option Result) → MayEnd x → MayEnd y → MayEnd (if b then x else y)
either_end true x y hx hy = hx
either_end false x y hx hy = hy

turned :
    (t : Turn) (again : ℕ → Option Result)
    → TurnEnds t
    → ((next : ℕ) → MayEnd (again next))
    → MayEnd (elim t [ inl result ↦ some result | inr next ↦ again next ])
turned (inl result) again h goes = h
turned (inr next) again h goes = goes next

loop-MayEnd : (fuel errno : ℕ) (rounds : ℕ → Round) → MayEnd (connect_loop fuel errno rounds)
unfolding connect_loop
loop-MayEnd zero errno rounds = tt
loop-MayEnd (suc fuel) errno rounds =
    either_end (errno == einprogress || errno == enotconn) _ _
      (turned (turn (rounds 0)) (λ next. connect_loop fuel next (λ n. rounds (suc n)))
        (turn-TurnEnds (rounds 0)) (λ next. loop-MayEnd fuel next (λ n. rounds (suc n))))
      (either_end (not (errno == eintr)) _ _ (inr refl) (loop-MayEnd fuel errno rounds))

-- What the caller is told: 0 with no error number, or -1 with one that is not ETIMEDOUT.
abbrev pub Told : ℤ → ℕ → Type 0
Told r errno = ((r ≡ pos 0) × (errno ≡ 0)) ⊎ ((r ≡ negsuc 0) × (errno ≢ etimedout))

in_progress :
    (errno : ℕ) → (if (0 == 0) && errno == etimedout then einprogress else errno) ≢ etimedout
in_progress errno = ground arith

renamed-Told : (result : Result) → LoopEnds result → Told ((renamed result).0) ((renamed result).1)
renamed-Told (pos n, errno) (inl (e, f)) = inl (e, f)
renamed-Told (pos n, errno) (inr e) = absurd (ground arith)
renamed-Told (negsuc zero, errno) h = inr (refl, in_progress errno)
renamed-Told (negsuc (suc n), errno) (inl (e, f)) = absurd (ground arith)
renamed-Told (negsuc (suc n), errno) (inr e) = absurd (ground arith)

-- The flags behind connect: as they were, but non-blocking when the raw call connected at once.
abbrev pub Connected : Flags → Result → Option (Option (ℤ × Flags) × ℕ) → Type 0
Connected f raw none = Unit
Connected f raw (some (none, errno)) = ⊥
Connected f raw (some (some (r, g), errno)) =
    Told r errno × (g ≡ (if is_zero (raw.0) then record f { non_blocking = true } else f))

is_zero_pos : (r : ℤ) → is_zero r ≡ true → r ≡ pos 0
is_zero_pos (pos n) e = ap pos (==→eq n 0 e)
is_zero_pos (negsuc n) e = absurd (ground arith)

told_value :
    (fcntl : Fcntl) (f : Flags) (raw : Result) (o : Option Result)
    → IsOpen fcntl
    → is_zero (raw.0) ≡ false
    → MayEnd o
    → Connected f raw (around fcntl f (ended o))
told_value fcntl f raw none opened failed h = tt
told_value fcntl f raw (some result) opened failed h =
    rw (impl_non_blocking-left_by fcntl (λ g. value ((renamed result).0)) f opened)
      (renamed-Told result h, rw (failed) refl)

-- connect on an open descriptor, whatever the system answers, does not panic. When it returns, it
-- returns 0 with the error number reset, or -1 with an error number other than ETIMEDOUT; the
-- descriptor has the flags it had, except that a connection made at once leaves it non-blocking.
pub connect-Connected :
    (fuel : ℕ) (fcntl : Fcntl) (f : Flags) (raw : Result) (rounds : ℕ → Round)
    → IsOpen fcntl
    → Connected f raw (connect fuel fcntl f raw rounds)
unfolding connect connect_body
connect-Connected fuel fcntl f raw rounds opened = elim (Bool-cases (is_zero (raw.0))) [
  | inl e ↦ rw (e) (
      rw (impl_non_blocking-left_by fcntl (λ g. early (raw.0)) f opened)
        (inl (is_zero_pos (raw.0) e, refl), rw (e) refl))
  | inr e ↦ rw (e) (
      told_value fcntl f raw (connect_loop fuel (raw.1) rounds) opened e
        (loop-MayEnd fuel (raw.1) rounds))
]
