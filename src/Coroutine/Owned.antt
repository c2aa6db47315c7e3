-- ===== src/Coroutine/Owned.antt =====
-- That the locals of open-coroutine-core/src/coroutine/local.rs are a map: each key has a box of its
-- own, and what is read is what was written last.
use open_coroutine.Base.{
  ℕ, suc, ◌≡◌, ◌<◌, ◌==◌, refl, sym, ap, ◌∙◌, Option-cases, ==_refl, if◌then◌else◌, Option, none,
  some, some-injective, Bool, true, false, Bool-cases, inl, inr, arith, ==→eq,
}
use open_coroutine.Coroutine.Local.{Local, set, from_raw, put, at, get, IsOwned}

pub set_here : {A : Type 0} (k : ℕ) (v : A) (f : ℕ → A) → set k v f k ≡ v
set_here k v f = rw (==_refl k) refl

pub set_there : {A : Type 0} (k i : ℕ) (v : A) (f : ℕ → A) → (k == i) ≡ false → set k v f i ≡ f i
set_there k i v f e = rw (e) refl

above : (a n : ℕ) → a < n → (n == a) ≡ false
above a n h = ground arith

below : (a n : ℕ) → a < n → (a == n) ≡ false
below a n h = ground arith

pub if_other : {A : Type 0} (b : Bool) (x y z : A) → b ≡ false → y ≡ z → (if b then x else y) ≡ z
if_other b x y z e h = rw (e) h

module _ {V : Type 0} where
  -- The boxes behind a `put`, given the address that the key had.
  abbrev pub freed : Option ℕ → (ℕ → Option V) → ℕ → Option V
  freed none boxes = boxes
  freed (some a) boxes = set a none boxes

  pub from_raw-boxes :
      (o : Option ℕ) (l : Local V) (i : ℕ) → (from_raw o l).0.boxes i ≡ freed o l.boxes i
  from_raw-boxes none l i = refl
  from_raw-boxes (some a) l i = refl

  pub from_raw-addresses : (o : Option ℕ) (l : Local V) → (from_raw o l).0.addresses ≡ l.addresses
  from_raw-addresses none l = refl
  from_raw-addresses (some a) l = refl

  pub at_address : (o : Option ℕ) (l : Local V) (a : ℕ) → o ≡ some a → at o l ≡ l.boxes a
  at_address none l a e = absurd (ground arith)
  at_address (some b) l a e = ap l.boxes (some-injective b a e)

  -- The new box is none of the old ones.
  pub fresh_box :
      (o : Option ℕ) (n : ℕ) (v : V) (boxes : ℕ → Option V)
      → ((a : ℕ) → o ≡ some a → a < n)
      → freed o (set n (some v) boxes) n ≡ some v
  fresh_box none n v boxes old = set_here n (some v) boxes
  fresh_box (some a) n v boxes old =
      set_there a n none (set n (some v) boxes) (below a n (old a refl)) ∙ set_here n (some v) boxes

  -- The boxes of other keys are left.
  pub other_box :
      (o : Option ℕ) (n b : ℕ) (v : V) (boxes : ℕ → Option V)
      → b < n
      → ((a : ℕ) → o ≡ some a → (a == b) ≡ false)
      → freed o (set n (some v) boxes) b ≡ boxes b
  other_box none n b v boxes h apart = set_there n b (some v) boxes (above b n h)
  other_box (some a) n b v boxes h apart =
      set_there a b none (set n (some v) boxes) (apart a refl)
      ∙ set_there n b (some v) boxes (above b n h)

  -- The coroutine's locals behind `put`, but for the box of the old value, which is freed.
  abbrev pub with_new : ℕ → V → Local V → Local V
  with_new key v l = record {
    next = suc l.next;
    boxes = set l.next (some v) l.boxes;
    addresses = set key (some l.next) l.addresses;
  }

  returns_old :
      (o : Option ℕ) (key : ℕ) (v : V) (l : Local V)
      → ((a : ℕ) → o ≡ some a → a < l.next)
      → (from_raw o (with_new key v l)).1 ≡ at o l
  returns_old none key v l old = refl
  returns_old (some a) key v l old =
      set_there l.next a (some v) l.boxes (above a l.next (old a refl))

  address_behind :
      (o : Option ℕ) (key j : ℕ) (v : V) (l : Local V)
      → (from_raw o (with_new key v l)).0.addresses j
        ≡ (if key == j then some l.next else l.addresses j)
  address_behind o key j v l = ap (λ f. f j) (from_raw-addresses o (with_new key v l))

  gets_new :
      (o : Option ℕ) (key j : ℕ) (v : V) (l : Local V)
      → ((a : ℕ) → o ≡ some a → a < l.next)
      → (key == j) ≡ true
      → at ((from_raw o (with_new key v l)).0.addresses j) (from_raw o (with_new key v l)).0
        ≡ some v
  gets_new o key j v l old e =
      at_address ((from_raw o (with_new key v l)).0.addresses j) ((from_raw o (with_new key v l)).0)
        l.next (address_behind o key j v l ∙ rw (e) refl)
      ∙ from_raw-boxes o (with_new key v l) l.next
      ∙ fresh_box o l.next v l.boxes old

  gets_other :
      (o : Option ℕ) (key j : ℕ) (v : V) (l : Local V)
      → ((b : ℕ) → l.addresses j ≡ some b → b < l.next)
      → ((a b : ℕ) → o ≡ some a → l.addresses j ≡ some b → (a == b) ≡ false)
      → (key == j) ≡ false
      → at ((from_raw o (with_new key v l)).0.addresses j) (from_raw o (with_new key v l)).0
        ≡ at (l.addresses j) l
  gets_other o key j v l old apart e = elim (Option-cases (l.addresses j)) [
    | inl absent ↦
        ap (λ x. at x (from_raw o (with_new key v l)).0)
          (address_behind o key j v l
            ∙ if_other (key == j) (some l.next) (l.addresses j) none e absent)
        ∙ sym (ap (λ x. at x l) absent)
    | inr (b, there) ↦
        at_address ((from_raw o (with_new key v l)).0.addresses j)
          ((from_raw o (with_new key v l)).0) b (address_behind o key j v l ∙ rw (e) there)
        ∙ from_raw-boxes o (with_new key v l) b
        ∙ other_box o l.next b v l.boxes (old b there) (λ a f. apart a b f there)
        ∙ sym (at_address (l.addresses j) l b there)
  ]

  pub distinct :
      (l : Local V) (key j a b : ℕ)
      → IsOwned l
      → (key == j) ≡ false
      → l.addresses key ≡ some a
      → l.addresses j ≡ some b
      → (a == b) ≡ false
  unfolding IsOwned
  distinct l key j a b (given, alive, own) e f g = elim (Bool-cases (a == b)) [
    | inl same ↦ absurd (ground (arith, own key j b (f ∙ ap some (==→eq a b same)) g))
    | inr other ↦ other
  ]

  -- Where every key has a box of its own that is alive, `put` returns what the key had, a `get` of the
  -- key returns what was put, and a `get` of any other key returns what it did before.
  pub get-put :
      (key j : ℕ) (v : V) (l : Local V)
      → IsOwned l
      → ((put key v l).1 ≡ get key l)
        × (get j (put key v l).0 ≡ (if key == j then some v else get j l))
  unfolding put get IsOwned
  get-put key j v l (given, alive, own) = (
    returns_old (l.addresses key) key v l (given key),
    elim (Bool-cases (key == j)) [
      | inl e ↦ gets_new (l.addresses key) key j v l (given key) e ∙ sym (rw (e) refl)
      | inr e ↦
          gets_other (l.addresses key) key j v l (given j)
            (λ a b f g. distinct l key j a b (given, alive, own) e f g) e
          ∙ sym (rw (e) refl)
    ],
  )
