-- ===== src/Coroutine/Alive.antt =====
-- That the operations of open-coroutine-core/src/coroutine/local.rs keep to each key a box of its own.
use open_coroutine.Base.{
  ℕ, suc, ◌≡◌, ◌<◌, ◌==◌, refl, sym, ap, ◌∙◌, ◌⊎◌, if◌then◌else◌, Option, none, some,
  some-injective, Bool, true, false, Bool-cases, inl, inr, arith, ==→eq,
}
use open_coroutine.Coroutine.Local.{Local, set, from_raw, written, IsOwned, empty}
use open_coroutine.Coroutine.Owned.{set_there, freed, fresh_box, other_box, distinct}

pub if_true : {A : Type 0} (b : Bool) (x y : A) → b ≡ true → (if b then x else y) ≡ x
if_true b x y e = rw (e) refl

key_or_not :
    (key k a : ℕ) (o : Option ℕ) (addresses : ℕ → Option ℕ)
    → set key o addresses k ≡ some a
    → ((key ≡ k) × (o ≡ some a)) ⊎ (((key == k) ≡ false) × (addresses k ≡ some a))
key_or_not key k a o addresses e = elim (Bool-cases (key == k)) [
  | inl same ↦ inl (==→eq key k same, sym (rw (same) refl) ∙ e)
  | inr other ↦ inr (other, sym (set_there key k o addresses other) ∙ e)
]

no_address :
    (key k a : ℕ) (addresses : ℕ → Option ℕ)
    → set key none addresses k ≡ some a
    → ((key == k) ≡ false) × (addresses k ≡ some a)
no_address key k a addresses e = elim (key_or_not key k a none addresses e) [
  | inl (same, here) ↦ absurd (ground arith)
  | inr kept ↦ kept
]

pub empty-IsOwned : (V : Type 0) → IsOwned {V = V} empty
unfolding IsOwned
empty-IsOwned V = (
  λ k a e. absurd (ground arith),
  λ k a e. absurd (ground arith),
  λ j k a e f. absurd (ground arith),
)

module _ {V : Type 0} where
  -- A value under a key is at an address of its own.
  unfoldable pub OwnedBy : ℕ → (ℕ → Option V) → (ℕ → Option ℕ) → Type 0
  OwnedBy next boxes addresses =
      ((k a : ℕ) → addresses k ≡ some a → a < next)
      × ((k a : ℕ) → addresses k ≡ some a → (v : V) × (boxes a ≡ some v))
      × ((j k a : ℕ) → addresses j ≡ some a → addresses k ≡ some a → j ≡ k)

  pub put-OwnedBy :
      (key : ℕ) (v : V) (l : Local V)
      → IsOwned l
      → OwnedBy
          (suc l.next)
          (freed (l.addresses key) (set l.next (some v) l.boxes))
          (set key (some l.next) l.addresses)
  unfolding OwnedBy IsOwned
  put-OwnedBy key v l (given, alive, own) = (given', alive', own')
    where
      given' : (k a : ℕ) → set key (some l.next) l.addresses k ≡ some a → a < suc l.next
      given' k a e = elim (key_or_not key k a (some l.next) l.addresses e) [
        | inl (same, here) ↦ omega (arith, some-injective l.next a here)
        | inr (other, there) ↦ omega (arith, given k a there)
      ]

      alive' :
          (k a : ℕ)
          → set key (some l.next) l.addresses k ≡ some a
          → (w : V) × (freed (l.addresses key) (set l.next (some v) l.boxes) a ≡ some w)
      alive' k a e = elim (key_or_not key k a (some l.next) l.addresses e) [
        | inl (same, here) ↦ (
          v,
          ap (freed (l.addresses key) (set l.next (some v) l.boxes))
                (sym (some-injective l.next a here))
              ∙ fresh_box (l.addresses key) l.next v l.boxes (given key),
        )
        | inr (other, there) ↦
            let (w, held) = alive k a there in
            (
              w,
              other_box (l.addresses key) l.next a v l.boxes (given k a there)
                    (λ b f. distinct l key k b a (given, alive, own) other f there)
                  ∙ held,
            )
      ]

      own' :
          (j k a : ℕ)
          → set key (some l.next) l.addresses j ≡ some a
          → set key (some l.next) l.addresses k ≡ some a
          → j ≡ k
      own' j k a e f = elim (key_or_not key j a (some l.next) l.addresses e) [
        | inl (same, here) ↦ elim (key_or_not key k a (some l.next) l.addresses f) [
          | inl (same', here') ↦ omega arith
          | inr (other', there') ↦
              absurd (omega (arith, given k a there', some-injective l.next a here))
        ]
        | inr (other, there) ↦ elim (key_or_not key k a (some l.next) l.addresses f) [
          | inl (same', here') ↦
              absurd (omega (arith, given j a there, some-injective l.next a here'))
          | inr (other', there') ↦ own j k a there there'
        ]
      ]

  pub freed_other :
      (o : Option ℕ) (b : ℕ) (boxes : ℕ → Option V)
      → ((c : ℕ) → o ≡ some c → (c == b) ≡ false)
      → freed o boxes b ≡ boxes b
  freed_other none b boxes apart = refl
  freed_other (some c) b boxes apart = set_there c b none boxes (apart c refl)

  pub remove-OwnedBy :
      (key : ℕ) (l : Local V)
      → IsOwned l
      → OwnedBy l.next (freed (l.addresses key) l.boxes) (set key none l.addresses)
  unfolding OwnedBy IsOwned
  remove-OwnedBy key l (given, alive, own) = (
    λ k a e. given k a ((no_address key k a l.addresses e).1),
    λ k a e.
        let (other, there) = no_address key k a l.addresses e in
        let (w, held) = alive k a there in
        (
          w,
          freed_other (l.addresses key) a l.boxes
                (λ b f. distinct l key k b a (given, alive, own) other f there)
              ∙ held,
        ),
    λ j k a e f.
        own j k a ((no_address key j a l.addresses e).1) ((no_address key k a l.addresses f).1),
  )

  pub from_raw-IsOwned :
      (o : Option ℕ) (l : Local V)
      → OwnedBy l.next (freed o l.boxes) l.addresses
      → IsOwned ((from_raw o l).0)
  unfolding OwnedBy IsOwned
  from_raw-IsOwned none l h = h
  from_raw-IsOwned (some a) l h = h

  still_alive :
      (a b : ℕ) (v : V) (boxes : ℕ → Option V)
      → (w : V) × (boxes b ≡ some w)
      → (w : V) × (set a (some v) boxes b ≡ some w)
  still_alive a b v boxes (w, held) = elim (Bool-cases (a == b)) [
    | inl same ↦ (v, rw (same) refl)
    | inr other ↦ (w, rw (other) held)
  ]

  pub written-IsOwned : (o : Option ℕ) (v : V) (l : Local V) → IsOwned l → IsOwned (written o v l)
  unfolding IsOwned
  written-IsOwned none v l h = h
  written-IsOwned (some a) v l (given, alive, own) =
      (given, λ k b e. still_alive a b v l.boxes (alive k b e), own)
