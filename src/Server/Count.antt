-- ===== src/Server/Count.antt =====
-- Sums over the tasks of a server, and what holds of each.
use mathlib.Core.Path.{subst}
use xoa_proxy.Prelude.{
  ℕ, zero, suc, ◌+◌, ◌≤◌, ◌≡◌, Bool, true, false, ap, some, unwrap_or, List, [], ◌∷◌, ◌++◌, arith,
  get_elem?, set,
}

abbrev pub one_if : Bool → ℕ
one_if true = 1
one_if false = 0

module _ {A : Type 0} where
  abbrev pub total : (A → ℕ) → List A → ℕ
  total f [] = 0
  total f (x ∷ xs) = f x + total f xs

  pub total-append : (f : A → ℕ) (xs ys : List A) → total f (xs ++ ys) ≡ total f xs + total f ys
  total-append f [] ys = omega arith
  total-append f (x ∷ xs) ys = omega (arith, total-append f xs ys)

  pub total-set :
      (f : A → ℕ) (xs : List A) (i : ℕ) (x y : A)
      → get_elem? xs i ≡ some x
      → total f (set xs i y) + f x ≡ total f xs + f y
  total-set f [] i x y e = absurd (cc)
  total-set f (z ∷ xs) zero x y e = ground (arith)
  total-set f (z ∷ xs) (suc i) x y e = omega (arith, total-set f xs i x y e)

  pub total-get :
      (f : A → ℕ) (xs : List A) (i : ℕ) (x : A) → get_elem? xs i ≡ some x → f x ≤ total f xs
  total-get f [] i x e = absurd (cc)
  total-get f (z ∷ xs) zero x e = ground (arith)
  total-get f (z ∷ xs) (suc i) x e = omega (arith, total-get f xs i x e)

  abbrev pub All : (A → Type 0) → List A → Type 0
  All P [] = Unit
  All P (x ∷ xs) = P x × All P xs

  pub All-append : (P : A → Type 0) (xs ys : List A) → All P xs → All P ys → All P (xs ++ ys)
  All-append P [] ys h k = k
  All-append P (x ∷ xs) ys (p, h) k = (p, All-append P xs ys h k)

  pub All-set : (P : A → Type 0) (xs : List A) (i : ℕ) (y : A) → All P xs → P y → All P (set xs i y)
  All-set P [] i y h p = tt
  All-set P (x ∷ xs) zero y (q, h) p = (p, h)
  All-set P (x ∷ xs) (suc i) y (q, h) p = (q, All-set P xs i y h p)

  pub All-get :
      (P : A → Type 0) (xs : List A) (i : ℕ) (x : A) → All P xs → get_elem? xs i ≡ some x → P x
  All-get P [] i x h e = absurd (cc)
  All-get P (z ∷ xs) zero x (p, h) e = subst P (ap (unwrap_or z) e) p
  All-get P (z ∷ xs) (suc i) x (p, h) e = All-get P xs i x h e

  -- A sum is at most another, if each of its terms is.
  pub total_mono :
      (f g : A → ℕ) (P : A → Type 0) (xs : List A)
      → ((x : A) → P x → f x ≤ g x)
      → All P xs
      → total f xs ≤ total g xs
  total_mono f g P [] le h = omega arith
  total_mono f g P (x ∷ xs) le (p, h) = omega (arith, le x p, total_mono f g P xs le h)
