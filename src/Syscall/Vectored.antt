-- ===== src/Syscall/Vectored.antt =====
-- What the macros `impl_nio_iovec` and `impl_nio_msghdr` of open-coroutine-core/src/syscall/nio.rs give
-- to `impl_non_blocking`, which Io puts around it, over what the system answers; a loop that comes to
-- the end of the answers is still running.
use open_coroutine.Base.{
  ℕ, zero, suc, ◌+◌, ◌-◌, ltb, leb, ◌==◌, if◌then◌else◌, List, [], ◌∷◌, Bool, true, false, Option,
  none, some, ◌&&◌, ◌||◌, length, total, map,
}
use open_coroutine.Syscall.Nio.{
  Attempt, answered, would_block, interrupted, other_error, Ret, moved, minus_one,
}

-- A `iovec`.
pub record Iovec : Type 0 where
  pub iov_base : ℕ
  pub iov_len : ℕ

-- How a call ends: what it returns, none for a panic, and the vectors that every raw call was given.
pub record Vectored : Type 0 where
  pub returned : Option Ret
  pub seen : List (List Iovec)

-- `pices`: the length up to and with each vector.
abbrev pub pices_from : ℕ → List Iovec → List ℕ
pices_from n [] = []
pices_from n (v ∷ vec) = (n + v.iov_len) ∷ pices_from (n + v.iov_len) vec

-- The first piece that reaches behind `done`, or 0.
abbrev pub find_index : ℕ → ℕ → List ℕ → ℕ
find_index done i [] = 0
find_index done i (v ∷ rest) = if ltb done v then i else find_index done (suc i) rest

abbrev pub piece : List ℕ → ℕ → ℕ
piece [] i = 0
piece (v ∷ rest) zero = v
piece (v ∷ rest) (suc i) = piece rest i

abbrev pub current_offset : ℕ → List ℕ → ℕ → ℕ
current_offset done pices zero = done
current_offset done pices (suc i) = done - piece pices i

abbrev pub drop {ℓ} : {A : Type ℓ} → ℕ → List A → List A
drop zero xs = xs
drop (suc n) [] = []
drop (suc n) (x ∷ xs) = drop n xs

-- `vec[0]` moved on by the offset; none where the index panics.
abbrev pub advance : ℕ → List Iovec → Option (List Iovec)
advance offset [] = none
advance offset (v ∷ vec) =
    some (record { iov_base = v.iov_base + offset; iov_len = v.iov_len - offset } ∷ vec)

abbrev pub c_int_max : ℕ
c_int_max = 2147483647

-- The vectors of the raw call. `checked`: their number is converted to a `c_int`, which panics.
unfoldable pub arguments : Bool → ℕ → List Iovec → List ℕ → Option (List Iovec)
arguments checked done vec pices =
    let i = find_index done 0 pices in
    let left = drop i vec in
    if checked && ltb c_int_max (length left)
    then none
    else advance (current_offset done pices i) left

abbrev pub ends : Option Ret → Option Vectored
ends returned = some (record { returned = returned; seen = [] })

abbrev pub called : List Iovec → Option Vectored → Option Vectored
called given none = none
called given (some e) = some (record { returned = e.returned; seen = given ∷ e.seen })

-- One turn of the loop; `again` is the loop behind it with the variable `vec` that it leaves.
abbrev pub turn : Bool → ℕ → ℕ → List Iovec → Attempt → Option Vectored → Option Vectored
turn condition size done given (answered k) again =
    if leb size (done + k) || (condition && (k == 0))
    then called given (ends (some (moved (done + k))))
    else called given (ends (some (moved k)))
turn condition size done given (would_block true) again = called given again
turn condition size done given (would_block false) again = called given (ends (some minus_one))
turn condition size done given interrupted again = called given again
turn condition size done given other_error again = called given (ends (some minus_one))

unfoldable pub vectored_loop :
    Bool → Bool → ℕ → List Iovec → List ℕ → ℕ → Ret → List Attempt → Option Vectored
unfolding arguments
vectored_loop checked condition size vec pices done r [] =
    if ltb done size then none else ends (some r)
vectored_loop checked condition size vec pices done r (a ∷ rest) =
    if ltb done size
    then elim (arguments checked done vec pices) [
      | none ↦ ends none
      | some given ↦ turn condition size done given a (
          vectored_loop checked condition size given (drop (find_index done 0 pices) pices) done
            minus_one rest)
    ]
    else ends (some r)

abbrev pub size_of : List Iovec → ℕ
size_of vec = total (λ v. v.iov_len) vec

-- What `impl_nio_iovec` gives to `impl_non_blocking`.
unfoldable pub nio_iovec : Bool → List Iovec → List Attempt → Option Vectored
unfolding vectored_loop
nio_iovec condition vec attempts =
    vectored_loop true condition (size_of vec) vec (pices_from 0 vec) 0 (moved 0) attempts

-- A `msghdr`; the pointers and lengths that the macro passes on are numbers.
pub record Msghdr : Type 0 where
  pub msg_name : ℕ
  pub msg_namelen : ℕ
  pub msg_iov : List Iovec
  pub msg_control : ℕ
  pub msg_controllen : ℕ
  pub msg_flags : ℕ

-- `impl_nio_msghdr` on linux, where the number of vectors needs no conversion: how the call ends and
-- the messages that the raw calls were given.
abbrev pub messages : Msghdr → Option Vectored → Option (Option Ret × List Msghdr)
messages msg none = none
messages msg (some e) = some (e.returned, map (λ given. record msg { msg_iov = given }) e.seen)

unfoldable pub nio_msghdr : Bool → Msghdr → List Attempt → Option (Option Ret × List Msghdr)
unfolding vectored_loop
nio_msghdr condition msg attempts =
    let vec = msg.msg_iov in
    messages msg
      (vectored_loop false condition (size_of vec) vec (pices_from 0 vec) 0 (moved 0) attempts)
