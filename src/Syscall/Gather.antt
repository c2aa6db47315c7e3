-- ===== src/Syscall/Gather.antt =====
-- What the vectored loops of open-coroutine-core/src/syscall/nio.rs hand to the raw calls.
use open_coroutine.Base.{
  ℕ, zero, suc, ◌+◌, ◌-◌, ◌≤◌, ◌<◌, ◌≡◌, refl, ap, ◌∙◌, ltb, leb, ◌==◌, if◌then◌else◌, List, [],
  ◌∷◌, Bool, true, false, Option, none, some, ◌&&◌, ◌||◌, length, All, arith, inl, inr, Bool-cases,
  ==→eq, lt→ltb, ge→ltb,
}
use open_coroutine.Syscall.Nio.{
  Attempt, answered, would_block, interrupted, other_error, Ret, moved, minus_one, nio,
}
use open_coroutine.Syscall.Vectored.{
  Iovec, Vectored, pices_from, find_index, current_offset, drop, advance, c_int_max, arguments,
  called, turn, vectored_loop, size_of, nio_iovec,
}

-- The vectors behind the empty ones at the front.
abbrev pub skip_empty : List Iovec → List Iovec
skip_empty [] = []
skip_empty (v ∷ vec) = if v.iov_len == 0 then skip_empty vec else v ∷ vec

abbrev empties : List Iovec → ℕ
empties [] = 0
empties (v ∷ vec) = if v.iov_len == 0 then suc (empties vec) else 0

find_index-empties :
    (i : ℕ) (vec : List Iovec)
    → 0 < size_of vec
    → find_index 0 i (pices_from 0 vec) ≡ i + empties vec
find_index-empties i [] h = absurd (omega arith)
find_index-empties i (v ∷ vec) h = elim (Bool-cases (v.iov_len == 0)) [
  | inl e ↦
      let empty = ==→eq v.iov_len 0 e in
      rw (empty) (find_index-empties (suc i) vec (omega (arith, empty, h)) ∙ omega arith)
  | inr e ↦ ground arith
]

drop-empties : (vec : List Iovec) → drop (empties vec) vec ≡ skip_empty vec
drop-empties [] = refl
drop-empties (v ∷ vec) = elim (Bool-cases (v.iov_len == 0)) [
  | inl e ↦ rw (e) (drop-empties vec)
  | inr e ↦ rw (e) refl
]

drop-pices :
    (vec : List Iovec) → drop (empties vec) (pices_from 0 vec) ≡ pices_from 0 (skip_empty vec)
drop-pices [] = refl
drop-pices (v ∷ vec) = elim (Bool-cases (v.iov_len == 0)) [
  | inl e ↦ rw (==→eq v.iov_len 0 e) (drop-pices vec)
  | inr e ↦ rw (e) refl
]

size_of-skip_empty : (vec : List Iovec) → size_of (skip_empty vec) ≡ size_of vec
size_of-skip_empty [] = refl
size_of-skip_empty (v ∷ vec) = elim (Bool-cases (v.iov_len == 0)) [
  | inl e ↦ rw (==→eq v.iov_len 0 e) (size_of-skip_empty vec ∙ omega arith)
  | inr e ↦ rw (e) refl
]

skip_empty_again : (vec : List Iovec) → skip_empty (skip_empty vec) ≡ skip_empty vec
skip_empty_again [] = refl
skip_empty_again (v ∷ vec) = elim (Bool-cases (v.iov_len == 0)) [
  | inl e ↦ rw (e) (skip_empty_again vec)
  | inr e ↦ rw (e) (rw (e) refl)
]

length-skip_empty : (vec : List Iovec) → length (skip_empty vec) ≤ length vec
length-skip_empty [] = omega arith
length-skip_empty (v ∷ vec) = elim (Bool-cases (v.iov_len == 0)) [
  | inl e ↦ rw (e) (omega (arith, length-skip_empty vec))
  | inr e ↦ rw (e) (omega arith)
]

current_offset_start : (pices : List ℕ) (i : ℕ) → current_offset 0 pices i ≡ 0
current_offset_start pices zero = refl
current_offset_start pices (suc i) = omega arith

advance_start : (vec : List Iovec) → 0 < size_of vec → advance 0 vec ≡ some vec
advance_start [] h = absurd (omega arith)
advance_start (v ∷ vec) h =
    let base : v.iov_base + 0 ≡ v.iov_base = omega arith in
    let len : v.iov_len - 0 ≡ v.iov_len = omega arith in rw (base) (rw (len) refl)

fits : (checked : Bool) (n : ℕ) → n ≤ c_int_max → (checked && ltb c_int_max n) ≡ false
fits true n h = ge→ltb c_int_max n h
fits false n h = refl

find_index_start :
    (vec : List Iovec) → 0 < size_of vec → find_index 0 0 (pices_from 0 vec) ≡ empties vec
find_index_start vec h = omega (arith, find_index-empties 0 vec h)

-- While nothing is done the raw call gets the vectors behind the empty ones.
arguments_start :
    (checked : Bool) (vec : List Iovec)
    → 0 < size_of vec
    → length vec ≤ c_int_max
    → arguments checked 0 vec (pices_from 0 vec) ≡ some (skip_empty vec)
unfolding arguments
arguments_start checked vec h few = rw (find_index_start vec h) (
    rw (drop-empties vec) (
      rw (fits checked (length (skip_empty vec)) (omega (arith, length-skip_empty vec))) (
        rw (current_offset_start (pices_from 0 vec) (empties vec))
          (advance_start (skip_empty vec) (omega (arith, size_of-skip_empty vec, h))))))

-- The call ends as the plain loop does, and every raw call was given these vectors.
abbrev pub Gathers : List Iovec → Option Ret → Option Vectored → Type 0
Gathers given none none = Unit
Gathers given none (some e) = ⊥
Gathers given (some r) none = ⊥
Gathers given (some r) (some e) = (e.returned ≡ some r) × All (λ vec. vec ≡ given) e.seen

called-Gathers :
    (given : List Iovec) (r : Option Ret) (o : Option Vectored)
    → Gathers given r o
    → Gathers given r (called given o)
called-Gathers given none none h = h
called-Gathers given none (some e) h = h
called-Gathers given (some r) none h = h
called-Gathers given (some r) (some e) h = (h.0, (refl, h.1))

turn_answered :
    (condition : Bool) (size k : ℕ) (given : List Iovec) (again : Option Vectored)
    → Gathers given (some (moved k)) (turn condition size 0 given (answered k) again)
turn_answered condition size k given again =
    elim (Bool-cases (leb size (0 + k) || (condition && (k == 0)))) [
      | inl e ↦ rw (e) (ap (λ n. some (moved n)) (omega arith), (refl, tt))
      | inr e ↦ rw (e) (refl, (refl, tt))
    ]

turn-Gathers :
    (condition : Bool) (size : ℕ) (given : List Iovec) (a : Attempt) (rest : List Attempt)
    (again : Option Vectored)
    → Gathers given (nio rest) again
    → Gathers given (nio (a ∷ rest)) (turn condition size 0 given a again)
unfolding nio
turn-Gathers condition size given (answered k) rest again h =
    turn_answered condition size k given again
turn-Gathers condition size given (would_block true) rest again h =
    called-Gathers given (nio rest) again h
turn-Gathers condition size given (would_block false) rest again h = (refl, (refl, tt))
turn-Gathers condition size given interrupted rest again h = called-Gathers given (nio rest) again h
turn-Gathers condition size given other_error rest again h = (refl, (refl, tt))

pub loop-Gathers :
    (checked condition : Bool) (size : ℕ) (vec : List Iovec) (r : Ret) (attempts : List Attempt)
    → 0 < size
    → 0 < size_of vec
    → length vec ≤ c_int_max
    → Gathers
        (skip_empty vec)
        (nio attempts)
        (vectored_loop checked condition size vec (pices_from 0 vec) 0 r attempts)
unfolding vectored_loop nio
loop-Gathers checked condition size vec r [] some_size h few = rw (lt→ltb 0 size some_size) tt
loop-Gathers checked condition size vec r (a ∷ rest) some_size h few =
    rw (lt→ltb 0 size some_size) (
      rw (arguments_start checked vec h few) (
        turn-Gathers condition size (skip_empty vec) a rest _ (
          rw (find_index_start vec h) (
            rw (drop-pices vec) (
              rw (skip_empty_again vec) at (
                loop-Gathers checked condition size (skip_empty vec) minus_one rest some_size
                  (omega (arith, size_of-skip_empty vec, h))
                  (omega (arith, length-skip_empty vec, few))))))))

-- A vectored read or write of at most `c_int::MAX` vectors that hold some space returns what the plain
-- loop returns, without a panic, and hands every raw call the same vectors: the caller's, from the
-- first that is not empty on.
pub nio_iovec-Gathers :
    (condition : Bool) (vec : List Iovec) (attempts : List Attempt)
    → 0 < size_of vec
    → length vec ≤ c_int_max
    → Gathers (skip_empty vec) (nio attempts) (nio_iovec condition vec attempts)
unfolding nio_iovec
nio_iovec-Gathers condition vec attempts h few =
    loop-Gathers true condition (size_of vec) vec (moved 0) attempts h h few
