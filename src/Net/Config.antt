-- ===== src/Net/Config.antt =====
-- `Config` of open-coroutine-core/src/net/config.rs. A setter whose assertion fails returns `none`.
use open_coroutine.Base.{
  ℕ, ◌≤◌, ◌<◌, ◌≡◌, ltb, leb, if◌then◌else◌, Option, none, some, ◌↔◌, ◌⊎◌, ap, some-injective,
  arith,
}

pub record Config : Type 0 where
  pub event_loop_size : ℕ
  pub stack_size : ℕ
  pub min_size : ℕ
  pub max_size : ℕ
  pub keep_alive_time : ℕ

-- `Config::default`, from the number of processors and `DEFAULT_STACK_SIZE`.
unfoldable pub default : ℕ → ℕ → Config
default cpus stack_size = record {
  event_loop_size = cpus;
  stack_size = stack_size;
  min_size = 0;
  max_size = 65536;
  keep_alive_time = 0;
}

unfoldable pub set_event_loop_size : ℕ → Config → Option Config
set_event_loop_size event_loop_size c =
    if ltb 1 event_loop_size then some (record c { event_loop_size = event_loop_size }) else none

unfoldable pub set_stack_size : ℕ → Config → Option Config
set_stack_size stack_size c = some (record c { stack_size = stack_size })

unfoldable pub set_min_size : ℕ → Config → Option Config
set_min_size min_size c = some (record c { min_size = min_size })

unfoldable pub set_max_size : ℕ → Config → Option Config
set_max_size max_size c =
    if ltb 0 max_size
    then (if leb c.min_size max_size then some (record c { max_size = max_size }) else none)
    else none

unfoldable pub set_keep_alive_time : ℕ → Config → Option Config
set_keep_alive_time keep_alive_time c = some (record c { keep_alive_time = keep_alive_time })

-- What the assertions ask of a configuration.
pub record IsSound (c : Config) : Type 0 where
  pub some_loop : 1 < c.event_loop_size
  pub some_room : 0 < c.max_size
  pub in_order : c.min_size ≤ c.max_size

-- `set_max_size` is refused exactly for 0 and for a size below the least one.
pub set_max_size-none :
    (max_size : ℕ) (c : Config)
    → (set_max_size max_size c ≡ none) ↔ ((max_size ≡ 0) ⊎ (max_size < c.min_size))
unfolding set_max_size
set_max_size-none max_size c = ground arith

-- Where `set_max_size` is not refused, a sound configuration stays sound.
pub set_max_size-IsSound :
    (max_size : ℕ) (c c' : Config) → IsSound c → set_max_size max_size c ≡ some c' → IsSound c'
unfolding set_max_size
set_max_size-IsSound max_size c c' sound e = ground (arith, sound.some_loop, sound.in_order)

-- `set_min_size` does not ask for the largest size: given a least size above it, it is accepted, and
-- the configuration is no longer sound.
pub set_min_size_above :
    (min_size : ℕ) (c c' : Config)
    → c.max_size < min_size
    → set_min_size min_size c ≡ some c'
    → c'.max_size < c'.min_size
unfolding set_min_size
set_min_size_above min_size c c' above e =
    let same = some-injective (record c { min_size = min_size }) c' e in
    omega (arith, above, ap (λ d. d.max_size) same, ap (λ d. d.min_size) same)
