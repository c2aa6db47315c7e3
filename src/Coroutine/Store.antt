-- ===== src/Coroutine/Store.antt =====
-- The locals of open-coroutine-core/src/coroutine/local.rs against a map without boxes.
use std.Path.{fun_ext}
use open_coroutine.Base.{
  ℕ, ◌≡◌, ◌==◌, refl, sym, ap, ◌∙◌, Option, none, some, Bool-cases, inl, inr, ==→eq, List, [], ◌∷◌,
}
use open_coroutine.Coroutine.Local.{
  Local, set, put, at, get, written, get_mut, remove, IsOwned, empty,
}
use open_coroutine.Coroutine.Owned.{
  set_here, set_there, from_raw-boxes, from_raw-addresses, distinct, get-put,
}
use open_coroutine.Coroutine.Alive.{
  if_true, freed_other, put-OwnedBy, remove-OwnedBy, from_raw-IsOwned, written-IsOwned,
  empty-IsOwned,
}

pub data Op (V : Type 0) : Type 0 where
  puts writes : ℕ → V → Op V
  removes : ℕ → Op V

abbrev pub over : {V : Type 0} → V → Option V → Option V
over v none = none
over v (some old) = some v

module _ {V : Type 0} where
  -- The operations on the locals, what they return left out, and what they are to do to a map.
  abbrev pub act : Op V → Local V → Local V
  act (puts k v) l = (put k v l).0
  act (writes k v) l = get_mut k v l
  act (removes k) l = (remove k l).0

  abbrev pub intend : Op V → (ℕ → Option V) → ℕ → Option V
  intend (puts k v) f = set k (some v) f
  intend (writes k v) f = set k (over v (f k)) f
  intend (removes k) f = set k none f

  abbrev pub acts : List (Op V) → Local V → Local V
  acts [] l = l
  acts (op ∷ ops) l = acts ops (act op l)

  abbrev pub intends : List (Op V) → (ℕ → Option V) → ℕ → Option V
  intends [] f = f
  intends (op ∷ ops) f = intends ops (intend op f)

  act-IsOwned : (op : Op V) (l : Local V) → IsOwned l → IsOwned (act op l)
  unfolding put get_mut remove
  act-IsOwned (puts k v) l h = from_raw-IsOwned (l.addresses k) _ (put-OwnedBy k v l h)
  act-IsOwned (writes k v) l h = written-IsOwned (l.addresses k) v l h
  act-IsOwned (removes k) l h = from_raw-IsOwned (l.addresses k) _ (remove-OwnedBy k l h)

  -- Two reads at the same address, of boxes that agree there.
  reads :
      (x y : Option ℕ) (l l' : Local V)
      → x ≡ y
      → ((b : ℕ) → y ≡ some b → l.boxes b ≡ l'.boxes b)
      → at x l ≡ at y l'
  reads x none l l' e h = ap (λ z. at z l) e
  reads x (some b) l l' e h = ap (λ z. at z l) e ∙ h b refl

  address_left :
      (key j : ℕ) (l : Local V) → (remove key l).0.addresses j ≡ set key none l.addresses j
  unfolding remove
  address_left key j l =
      ap (λ f. f j)
        (from_raw-addresses (l.addresses key) (record l { addresses = set key none l.addresses }))

  over_alive : (v : V) (o : Option V) → (w : V) × (o ≡ some w) → over v o ≡ some v
  over_alive v o (w, e) = ap (over v) e

  wrote :
      (o : Option ℕ) (key j : ℕ) (v : V) (l : Local V)
      → l.addresses key ≡ o
      → IsOwned l
      → ((a : ℕ) → l.addresses key ≡ some a → (w : V) × (l.boxes a ≡ some w))
      → at ((written o v l).addresses j) (written o v l)
        ≡ set key (over v (at o l)) (λ i. at (l.addresses i) l) j
  wrote none key j v l e h alive = elim (Bool-cases (key == j)) [
    | inl same ↦
        ap (λ x. at x l) (ap l.addresses (sym (==→eq key j same)) ∙ e) ∙ sym (rw (same) refl)
    | inr other ↦ sym (rw (other) refl)
  ]
  wrote (some a) key j v l e h alive = elim (Bool-cases (key == j)) [
    | inl same ↦
        ap (λ x. at x (written (some a) v l)) (ap l.addresses (sym (==→eq key j same)) ∙ e)
        ∙ set_here a (some v) l.boxes
        ∙ sym (over_alive v (l.boxes a) (alive a e))
        ∙ sym (rw (same) refl)
    | inr other ↦
        reads (l.addresses j) (l.addresses j) (written (some a) v l) l refl
          (λ b there. set_there a b (some v) l.boxes (distinct l key j a b h other e there))
        ∙ sym (rw (other) refl)
  ]

  alive_at :
      (l : Local V) (key : ℕ)
      → IsOwned l
      → (a : ℕ) → l.addresses key ≡ some a
      → (w : V) × (l.boxes a ≡ some w)
  unfolding IsOwned
  alive_at l key (given, alive, own) a e = alive key a e

  get-remove :
      (key j : ℕ) (l : Local V)
      → IsOwned l
      → get j ((remove key l).0) ≡ set key none (λ i. get i l) j
  unfolding get remove
  get-remove key j l h = elim (Bool-cases (key == j)) [
    | inl e ↦
        ap (λ x. at x ((remove key l).0))
          (address_left key j l ∙ if_true (key == j) none (l.addresses j) e)
        ∙ sym (rw (e) refl)
    | inr e ↦
        reads ((remove key l).0.addresses j) (l.addresses j) ((remove key l).0) l
          (address_left key j l ∙ set_there key j none l.addresses e)
          (λ b there.
            from_raw-boxes (l.addresses key) (record l { addresses = set key none l.addresses }) b
            ∙ freed_other (l.addresses key) b l.boxes (λ a f. distinct l key j a b h e f there))
        ∙ sym (rw (e) refl)
  ]

  get-get_mut :
      (key j : ℕ) (v : V) (l : Local V)
      → IsOwned l
      → get j (get_mut key v l) ≡ set key (over v (get key l)) (λ i. get i l) j
  unfolding get get_mut
  get-get_mut key j v l h = wrote (l.addresses key) key j v l refl h (alive_at l key h)

  get-act :
      (op : Op V) (l : Local V) (j : ℕ) → IsOwned l → get j (act op l) ≡ intend op (λ i. get i l) j
  get-act (puts k v) l j h = (get-put k j v l h).1
  get-act (writes k v) l j h = get-get_mut k j v l h
  get-act (removes k) l j h = get-remove k j l h

  acts-intends :
      (ops : List (Op V)) (l : Local V) (j : ℕ)
      → IsOwned l
      → get j (acts ops l) ≡ intends ops (λ i. get i l) j
  acts-intends [] l j h = refl
  acts-intends (op ∷ ops) l j h =
      acts-intends ops (act op l) j (act-IsOwned op l h)
      ∙ ap (λ f. intends ops f j) (fun_ext (λ i. get-act op l i h))

  -- After any puts, writes through `get_mut` and removes, in any order, from the empty locals on, a
  -- `get` of any key returns what a plain map would hold: what was last put or written, or nothing
  -- when the key was never put or was removed since. No box is read after it was freed.
  pub get-acts : (ops : List (Op V)) (j : ℕ) → get j (acts ops empty) ≡ intends ops (λ k. none) j
  unfolding get
  get-acts ops j = acts-intends ops empty j (empty-IsOwned V)
