-- ===== src/Base/Lists.antt =====
-- Lists measured and indexed by native numbers, under the library's names, and predicates on them.
use Prim.Native.Nat.{ℕ, zero, suc, ◌+◌}
use mathlib.Core.Path.{◌≡◌, refl, ap, subst}
use mathlib.Core.Logic.{◌⊎◌, inl, inr}
use mathlib.Core.List.{List, [], ◌∷◌, ◌++◌, map}
use mathlib.Core.Option.{Option, none, some, some-injective}
use native.Mathlib.Omega.{arith}

module _ {ℓ} {A : Type ℓ} where
  abbrev pub length : List A → ℕ
  length [] = 0
  length (x ∷ xs) = suc (length xs)

  abbrev pub get_elem? : List A → ℕ → Option A
  get_elem? [] i = none
  get_elem? (x ∷ xs) zero = some x
  get_elem? (x ∷ xs) (suc i) = get_elem? xs i

  -- The sum of a weight over a list.
  abbrev pub total : (A → ℕ) → List A → ℕ
  total f [] = 0
  total f (x ∷ xs) = f x + total f xs

  pub total-append : (f : A → ℕ) (xs ys : List A) → total f (xs ++ ys) ≡ total f xs + total f ys
  total-append f [] ys = omega arith
  total-append f (x ∷ xs) ys = omega (arith, total-append f xs ys)

  -- The list with another i-th element.
  abbrev pub set_nth : List A → ℕ → A → List A
  set_nth [] i y = []
  set_nth (x ∷ xs) zero y = y ∷ xs
  set_nth (x ∷ xs) (suc i) y = x ∷ set_nth xs i y

  pub total-set_nth :
      (f : A → ℕ) (xs : List A) (i : ℕ) (x y : A)
      → get_elem? xs i ≡ some x
      → total f (set_nth xs i y) + f x ≡ f y + total f xs
  total-set_nth f [] i x y e = absurd (ground arith)
  total-set_nth f (z ∷ xs) zero x y e = omega (arith, ap f (some-injective z x e))
  total-set_nth f (z ∷ xs) (suc i) x y e = omega (arith, total-set_nth f xs i x y e)

  pub get_elem?-set_nth :
      (xs : List A) (i : ℕ) (x y : A)
      → get_elem? xs i ≡ some x
      → get_elem? (set_nth xs i y) i ≡ some y
  get_elem?-set_nth [] i x y e = absurd (ground arith)
  get_elem?-set_nth (z ∷ xs) zero x y e = refl
  get_elem?-set_nth (z ∷ xs) (suc i) x y e = get_elem?-set_nth xs i x y e

  pub length-set_nth : (xs : List A) (i : ℕ) (x : A) → length (set_nth xs i x) ≡ length xs
  length-set_nth [] i x = refl
  length-set_nth (z ∷ xs) zero x = refl
  length-set_nth (z ∷ xs) (suc i) x = ap suc (length-set_nth xs i x)

  pub set_nth_twice :
      (xs : List A) (i : ℕ) (x y : A) → set_nth (set_nth xs i x) i y ≡ set_nth xs i y
  set_nth_twice [] i x y = refl
  set_nth_twice (z ∷ xs) zero x y = refl
  set_nth_twice (z ∷ xs) (suc i) x y = ap (λ l. z ∷ l) (set_nth_twice xs i x y)

  -- The list without its i-th element.
  abbrev pub remove_nth : List A → ℕ → List A
  remove_nth [] i = []
  remove_nth (x ∷ xs) zero = xs
  remove_nth (x ∷ xs) (suc i) = x ∷ remove_nth xs i

  pub length-append : (xs ys : List A) → length (xs ++ ys) ≡ length xs + length ys
  length-append [] ys = omega arith
  length-append (x ∷ xs) ys = omega (arith, length-append xs ys)

  abbrev pub All {κ} : (A → Type κ) → List A → Type κ
  All P [] = Unit
  All P (x ∷ xs) = P x × All P xs

  pub All-mono {κ} :
      (P Q : A → Type κ) → ((x : A) → P x → Q x) → (xs : List A) → All P xs → All Q xs
  All-mono P Q f [] a = tt
  All-mono P Q f (x ∷ xs) a = (f x a.0, All-mono P Q f xs a.1)

  pub All-get_elem? {κ} :
      (P : A → Type κ) (xs : List A) (i : ℕ) (x : A) → All P xs → get_elem? xs i ≡ some x → P x
  All-get_elem? P [] i x a e = absurd (ground arith)
  All-get_elem? P (y ∷ xs) zero x a e = subst P (some-injective y x e) a.0
  All-get_elem? P (y ∷ xs) (suc i) x a e = All-get_elem? P xs i x a.1 e

  pub All-set_nth {κ} :
      (P : A → Type κ) (xs : List A) (i : ℕ) (x : A) → All P xs → P x → All P (set_nth xs i x)
  All-set_nth P [] i x a p = tt
  All-set_nth P (y ∷ xs) zero x a p = (p, a.1)
  All-set_nth P (y ∷ xs) (suc i) x a p = (a.0, All-set_nth P xs i x a.1 p)

  pub All-append {κ} : (P : A → Type κ) (xs ys : List A) → All P xs → All P ys → All P (xs ++ ys)
  All-append P [] ys hx hy = hy
  All-append P (x ∷ xs) ys hx hy = (hx.0, All-append P xs ys hx.1 hy)

pub length-map {ℓ κ} :
    {A : Type ℓ} {B : Type κ} (f : A → B) (xs : List A) → length (map f xs) ≡ length xs
length-map f [] = refl
length-map f (x ∷ xs) = omega (arith, length-map f xs)

-- To split on a computed list and keep the equation.
pub List-cases {ℓ} :
    {A : Type ℓ} (xs : List A) → (xs ≡ []) ⊎ ((x : A) × (rest : List A) × (xs ≡ x ∷ rest))
List-cases [] = inl refl
List-cases (x ∷ xs) = inr (x, xs, refl)
