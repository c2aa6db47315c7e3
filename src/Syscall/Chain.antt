-- ===== src/Syscall/Chain.antt =====
-- The default methods of open-coroutine-core/src/syscall/mod.rs, which call the function pointer that
-- they are given or the C library, and `shutdown` and `close` of nio.rs, which take a descriptor off
-- all loops.
use open_coroutine.Base.{ℕ, zero, suc, List, [], ◌∷◌, Option, none, some, ℤ, negsuc, false}
use open_coroutine.Syscall.Nio.{Attempt}
use open_coroutine.Net.Loops.{reach}

-- A default method of `UnixSyscall`: the pointer, if there is one, or the function of the C library.
unfoldable pub raw {ℓ κ} : {A : Type ℓ} {R : Type κ} → Option (A → R) → (A → R) → A → R
raw none libc a = libc a
raw (some f) libc a = f a

-- What the first calls of the raw function answer, from the i-th on.
unfoldable pub asked : Option (ℕ → Attempt) → (ℕ → Attempt) → ℕ → ℕ → List Attempt
unfolding raw
asked fn_ptr libc zero i = []
asked fn_ptr libc (suc n) i = raw fn_ptr libc i ∷ asked fn_ptr libc n (suc i)

-- What is taken off the loops.
pub data Deletion : Type 0 where
  del_read_event del_write_event del_event : Deletion

-- The match on `how`: SHUT_RD, SHUT_WR and SHUT_RDWR.
abbrev pub deletion_for : ℕ → Option Deletion
deletion_for zero = some del_read_event
deletion_for (suc zero) = some del_write_event
deletion_for (suc (suc zero)) = some del_event
deletion_for (suc (suc (suc how))) = none

-- The loops that are asked to delete, and the result with the error number.
abbrev pub shut : Option Deletion → ℕ → ℕ → ℤ × ℕ → Option (Deletion × List ℕ) × (ℤ × ℕ)
shut none loops index raw_result = (none, (negsuc 0, 22))
shut (some deletion) loops index raw_result =
    (some (deletion, reach loops loops false index), raw_result)

unfoldable pub shutdown : ℕ → ℕ → ℕ → ℤ × ℕ → Option (Deletion × List ℕ) × (ℤ × ℕ)
shutdown how loops index raw_result = shut (deletion_for how) loops index raw_result

unfoldable pub close : ℕ → ℕ → ℤ × ℕ → Option (Deletion × List ℕ) × (ℤ × ℕ)
close loops index raw_result = (some (del_event, reach loops loops false index), raw_result)
