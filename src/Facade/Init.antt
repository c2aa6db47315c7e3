-- ===== src/Facade/Init.antt =====
-- The configuration given to `init` of open-coroutine/src/lib.rs, by init_config of
-- open-coroutine-hooks/src/lib.rs.
use open_coroutine.Base.{
  ◌≡◌, ◌↔◌, ◌⊎◌, refl, Option, none, some, Bool-cases, inl, inr, arith, ltb, leb,
}
use open_coroutine.Net.Config.{
  Config, IsSound, set_event_loop_size, set_stack_size, set_min_size, set_max_size,
  set_keep_alive_time,
}

-- A setter whose assertion fails ends the chain.
abbrev ◌>>=◌ : Option Config → (Config → Option Config) → Option Config
◌>>=◌ none set = none
◌>>=◌ (some c) set = set c

-- `init` with the configuration `config`, where the core's is `c`.
unfoldable pub init_config : Config → Config → Option Config
unfolding set_event_loop_size set_stack_size set_min_size set_max_size set_keep_alive_time
init_config config c = do
  c ← set_event_loop_size config.event_loop_size c
  c ← set_stack_size config.stack_size c
  c ← set_min_size config.min_size c
  c ← set_max_size config.max_size c
  set_keep_alive_time config.keep_alive_time c

init_config_sound : (config c : Config) → IsSound config → init_config config c ≡ some config
unfolding init_config
init_config_sound config c sound = ground (arith, sound.some_loop, sound.some_room, sound.in_order)

init_config_or_none :
    (config c : Config) → IsSound config ⊎ ((init_config config c ≡ none) × (IsSound config → ⊥))
unfolding init_config
init_config_or_none config c = elim (Bool-cases (ltb 1 config.event_loop_size)) [
  | inr few ↦ inr (rw (few) refl, λ sound. ground (arith, few, sound.some_loop))
  | inl loops ↦ elim (Bool-cases (ltb 0 config.max_size)) [
    | inr no_room ↦
        inr (rw (loops, no_room) refl, λ sound. ground (arith, no_room, sound.some_room))
    | inl room ↦ elim (Bool-cases (leb config.min_size config.max_size)) [
      | inr above ↦
          inr (rw (loops, room, above) refl, λ sound. ground (arith, above, sound.in_order))
      | inl below ↦ inl (record {
        some_loop = ground (arith, loops);
        some_room = ground (arith, room);
        in_order = ground (arith, below);
      })
    ]
  ]
]

-- Whatever the core's configuration was, a sound one given to `init` takes its place, and `init`
-- fails an assertion exactly where the one that it is given is not sound.
pub init_config-IsSound :
    (config c : Config)
    → ((init_config config c ≡ some config) ↔ IsSound config)
      × ((init_config config c ≡ none) ↔ (IsSound config → ⊥))
init_config-IsSound config c = elim (init_config_or_none config c) [
  | inl sound ↦
      let done = init_config_sound config c sound in
      ((λ e. sound, λ s. done), (λ e s. ground (arith, e, done), λ bad. absurd (bad sound)))
  | inr (refused, bad) ↦
      ((λ e. ground (arith, e, refused), λ s. absurd (bad s)), (λ e. bad, λ n. refused))
]
