-- ===== src/Queue/Rand.antt =====
-- open-coroutine-queue/src/rand.rs: the generator that says where to begin stealing. Its two cells
-- are `u32`s, on which `<<` drops the digits that do not fit.
use Prim.Native.Nat.{bit_xor}
use open_coroutine.Base.{ℕ, ◌+◌, ◌*◌, ◌/◌, ◌%◌, ◌^◌, ◌<◌, ◌==◌, if◌then◌else◌, arith}
use native.Mathlib.Nat.{mul-lt-mul_of_pos_right}

pub record RngSeed : Type 0 where
  pub s : ℕ
  pub r : ℕ

unfoldable pub from_pair : ℕ → ℕ → RngSeed
from_pair s r = record { s = s; r = r }

-- `RngSeed::from_u64`.
unfoldable pub from_u64 : ℕ → RngSeed
unfolding from_pair
from_u64 seed =
    let one = seed / 2 ^ 32 % 2 ^ 32 in
    let two = seed % 2 ^ 32 in from_pair one (if two == 0 then 1 else two)

pub record FastRand : Type 0 where
  pub one : ℕ
  pub two : ℕ

unfoldable pub new : RngSeed → FastRand
new seed = record { one = seed.s; two = seed.r }

unfoldable pub replace_seed : RngSeed → FastRand → FastRand × RngSeed
unfolding from_pair
replace_seed seed g = (record { one = seed.s; two = seed.r }, from_pair g.one g.two)

-- What `fastrand` makes of its two cells.
unfoldable pub mixed : ℕ → ℕ → ℕ
mixed s1 s0 =
    let shifted = bit_xor s1 (s1 * 2 ^ 17 % 2 ^ 32) in
    bit_xor (bit_xor (bit_xor shifted s0) (shifted / 2 ^ 7)) (s0 / 2 ^ 16)

unfoldable pub fastrand : FastRand → FastRand × ℕ
unfolding mixed
fastrand g = (record { one = g.two; two = mixed g.one g.two }, (g.two + mixed g.one g.two) % 2 ^ 32)

unfoldable pub fastrand_n : ℕ → FastRand → FastRand × ℕ
unfolding fastrand
fastrand_n n g = ((fastrand g).0, (fastrand g).1 * n % 2 ^ 64 / 2 ^ 32)

-- `RngSeedGenerator`, whose lock is held for each of its calls.
pub record RngSeedGenerator : Type 0 where
  pub state : FastRand

unfoldable pub generator : RngSeed → RngSeedGenerator
unfolding new
generator seed = record { state = new seed }

unfoldable pub next_seed : RngSeedGenerator → RngSeedGenerator × RngSeed
unfolding fastrand from_pair
next_seed g =
    let (after_s, s) = fastrand g.state in
    let (after_r, r) = fastrand after_s in (record { state = after_r }, from_pair s r)

unfoldable pub next_generator : RngSeedGenerator → RngSeedGenerator × RngSeedGenerator
unfolding next_seed generator
next_generator g = ((next_seed g).0, generator (next_seed g).1)

scaled : (f n : ℕ) → f < 4294967296 → 0 < n → f * n % 18446744073709551616 / 4294967296 < n
scaled f n h p = omega (arith, mul-lt-mul_of_pos_right h p)

drawn_below : (g : FastRand) → (fastrand g).1 < 4294967296
unfolding fastrand
drawn_below g = omega arith

-- For every state of the generator and every positive bound, the number drawn lies below the bound.
pub fastrand_n-bounds : (n : ℕ) (g : FastRand) → 0 < n → (fastrand_n n g).1 < n
unfolding fastrand_n
fastrand_n-bounds n g p = scaled (fastrand g).1 n (drawn_below g) p

-- A seed has two parts of 32 binary digits each, and the second is never 0.
pub from_u64-bounds :
    (seed : ℕ)
    → ((from_u64 seed).s < 2 ^ 32) × (0 < (from_u64 seed).r) × ((from_u64 seed).r < 2 ^ 32)
unfolding from_u64
from_u64-bounds seed = (omega arith, ground arith, ground arith)
