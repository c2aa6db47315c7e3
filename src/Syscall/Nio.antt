-- ===== src/Syscall/Nio.antt =====
-- What the macros `impl_nio` and `impl_nio_buf` of open-coroutine-core/src/syscall/nio.rs give to
-- `impl_non_blocking`, which Io puts around it. What the system answers, call by call, is a list; a loop
-- that comes to its end without returning is still running.
use open_coroutine.Base.{
  ℕ, ◌+◌, ◌<◌, ◌≡◌, ltb, leb, if◌then◌else◌, List, [], ◌∷◌, Option, none, some, Bool, true, false,
  ◌&&◌, ◌||◌, ◌==◌, arith,
}

-- One call: a result other than -1, or -1 with the kind of its error. For `WouldBlock` the flag tells
-- whether waiting for the event succeeds.
pub data Attempt : Type 0 where
  answered : ℕ → Attempt
  would_block : Bool → Attempt
  interrupted other_error : Attempt

-- What the macro returns: a number, or -1.
pub data Ret : Type 0 where
  moved : ℕ → Ret
  minus_one : Ret

-- The loop of `impl_nio`.
unfoldable pub nio : List Attempt → Option Ret
nio [] = none
nio (answered r ∷ rest) = some (moved r)
nio (would_block true ∷ rest) = nio rest
nio (would_block false ∷ rest) = some minus_one
nio (interrupted ∷ rest) = nio rest
nio (other_error ∷ rest) = some minus_one

-- The loop of `impl_nio_buf` with its variables `done` and `r`. Behind a call that succeeds the error
-- number is reset to 0, whose kind is neither `WouldBlock` nor `Interrupted`, and the loop ends.
unfoldable pub nio_buf_loop : Bool → ℕ → ℕ → Ret → List Attempt → Option Ret
nio_buf_loop condition length done r [] = if ltb done length then none else some r
nio_buf_loop condition length done r (answered k ∷ rest) =
    if ltb done length
    then (if leb length (done + k) || (condition && (k == 0))
        then some (moved (done + k))
        else some (moved k))
    else some r
nio_buf_loop condition length done r (would_block waited ∷ rest) =
    let again = nio_buf_loop condition length done minus_one rest in
    if ltb done length then (if waited then again else some minus_one) else some r
nio_buf_loop condition length done r (interrupted ∷ rest) =
    let again = nio_buf_loop condition length done minus_one rest in
    if ltb done length then again else some r
nio_buf_loop condition length done r (other_error ∷ rest) =
    if ltb done length then some minus_one else some r

unfoldable pub nio_buf : Bool → ℕ → List Attempt → Option Ret
unfolding nio_buf_loop
nio_buf condition length attempts = nio_buf_loop condition length 0 (moved 0) attempts

loop-nio :
    (condition : Bool) (length : ℕ) (r : Ret) (attempts : List Attempt)
    → 0 < length
    → nio_buf_loop condition length 0 r attempts ≡ nio attempts
unfolding nio_buf_loop nio
loop-nio condition length r [] h = ground arith
loop-nio condition length r (answered k ∷ rest) h = ground arith
loop-nio condition length r (would_block true ∷ rest) h =
    ground (arith, loop-nio condition length minus_one rest h)
loop-nio condition length r (would_block false ∷ rest) h = ground arith
loop-nio condition length r (interrupted ∷ rest) h =
    ground (arith, loop-nio condition length minus_one rest h)
loop-nio condition length r (other_error ∷ rest) h = ground arith

-- For a buffer that is not empty, the loop that is to fill it returns what the plain loop returns: the
-- number that the first successful call moved, however small; it never calls again after it.
pub nio_buf-nio :
    (condition : Bool) (length : ℕ) (attempts : List Attempt)
    → 0 < length
    → nio_buf condition length attempts ≡ nio attempts
unfolding nio_buf
nio_buf-nio condition length attempts h = loop-nio condition length (moved 0) attempts h
