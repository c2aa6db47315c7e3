-- ===== src/Coroutine/Local.antt =====
-- `CoroutineLocal` of open-coroutine-core/src/coroutine/local.rs, for values of one type: a value is
-- boxed, and the map holds the address of its box. The boxes that are alive are a store by address.
use open_coroutine.Base.{ℕ, suc, ◌≡◌, ◌==◌, if◌then◌else◌, Option, none, some, ◌<◌}

-- The addresses below `next` have been given out; `boxes` holds those that are alive.
pub record Local (V : Type 0) : Type 0 where
  pub next : ℕ
  pub boxes : ℕ → Option V
  pub addresses : ℕ → Option ℕ

abbrev pub set : {A : Type 0} → ℕ → A → (ℕ → A) → ℕ → A
set k v f i = if k == i then v else f i

module _ {V : Type 0} where
  abbrev pub empty : Local V
  empty = record { next = 0; boxes = λ a. none; addresses = λ k. none }

  -- `Box::from_raw` at an address, which frees the box.
  abbrev pub from_raw : Option ℕ → Local V → Local V × Option V
  from_raw none l = (l, none)
  from_raw (some a) l = (record l { boxes = set a none l.boxes }, l.boxes a)

  unfoldable pub put : ℕ → V → Local V → Local V × Option V
  put key val l = from_raw (l.addresses key) (record {
    next = suc l.next;
    boxes = set l.next (some val) l.boxes;
    addresses = set key (some l.next) l.addresses;
  })

  abbrev pub at : Option ℕ → Local V → Option V
  at none l = none
  at (some a) l = l.boxes a

  unfoldable pub get : ℕ → Local V → Option V
  get key l = at (l.addresses key) l

  -- A write through `get_mut`.
  abbrev pub written : Option ℕ → V → Local V → Local V
  written none v l = l
  written (some a) v l = record l { boxes = set a (some v) l.boxes }

  unfoldable pub get_mut : ℕ → V → Local V → Local V
  get_mut key v l = written (l.addresses key) v l

  unfoldable pub remove : ℕ → Local V → Local V × Option V
  remove key l = from_raw (l.addresses key) (record l { addresses = set key none l.addresses })

  -- Every address in the map was given out before, holds a box that is alive, and belongs to one key.
  unfoldable pub IsOwned : Local V → Type 0
  IsOwned l =
      ((k a : ℕ) → l.addresses k ≡ some a → a < l.next)
      × ((k a : ℕ) → l.addresses k ≡ some a → (v : V) × (l.boxes a ≡ some v))
      × ((j k a : ℕ) → l.addresses j ≡ some a → l.addresses k ≡ some a → j ≡ k)
