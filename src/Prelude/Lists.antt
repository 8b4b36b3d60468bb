-- ===== src/Prelude/Lists.antt =====
-- Lists measured and indexed by native numbers.
use Prim.Native.Nat.{ℕ, zero, suc, ◌+◌, ◌≤◌}
use mathlib.Core.Path.{◌≡◌, refl, ap, sym, ◌∙◌}
use mathlib.Core.List.{List, [], ◌∷◌, ◌++◌, map}
use mathlib.Core.Option.{Option, none, some}
use native.Mathlib.Omega.{arith}

module _ {ℓ} {A : Type ℓ} where
  abbrev pub length : List A → ℕ
  length [] = 0
  length (x ∷ xs) = suc (length xs)

  abbrev pub get_elem? : List A → ℕ → Option A
  get_elem? [] i = none
  get_elem? (x ∷ xs) zero = some x
  get_elem? (x ∷ xs) (suc i) = get_elem? xs i

  -- A write out of bounds changes nothing.
  abbrev pub set : List A → ℕ → A → List A
  set [] i v = []
  set (x ∷ xs) zero v = v ∷ xs
  set (x ∷ xs) (suc i) v = x ∷ set xs i v

  abbrev pub take : ℕ → List A → List A
  take zero xs = []
  take (suc n) [] = []
  take (suc n) (x ∷ xs) = x ∷ take n xs

  pub length-append : (xs ys : List A) → length (xs ++ ys) ≡ length xs + length ys
  length-append [] ys = omega arith
  length-append (x ∷ xs) ys = omega (arith, length-append xs ys)

  pub length-take-le : (n : ℕ) (xs : List A) → length (take n xs) ≤ n
  length-take-le zero xs = omega arith
  length-take-le (suc n) [] = omega arith
  length-take-le (suc n) (x ∷ xs) = omega (arith, length-take-le n xs)

module _ {ℓ κ} {A : Type ℓ} {B : Type κ} (f : A → B) where
  pub map-set : (xs : List A) (i : ℕ) (x : A) → map f (set xs i x) ≡ set (map f xs) i (f x)
  map-set [] i x = refl
  map-set (y ∷ xs) zero x = refl
  map-set (y ∷ xs) (suc i) x = ap (◌∷◌ (f y)) (map-set xs i x)

  pub get_elem?-map :
      (xs : List A) (i : ℕ) (x : A) → get_elem? xs i ≡ some x → get_elem? (map f xs) i ≡ some (f x)
  get_elem?-map [] i x e = absurd (cc)
  get_elem?-map (y ∷ xs) zero x e = cc
  get_elem?-map (y ∷ xs) (suc i) x e = get_elem?-map xs i x e

  pub get_elem?-map-none :
      (xs : List A) (i : ℕ) → get_elem? xs i ≡ none → get_elem? (map f xs) i ≡ none
  get_elem?-map-none [] i e = refl
  get_elem?-map-none (y ∷ xs) zero e = absurd (cc)
  get_elem?-map-none (y ∷ xs) (suc i) e = get_elem?-map-none xs i e

module _ {ℓ} {A : Type ℓ} where
  pub set_self : (xs : List A) (i : ℕ) (x : A) → get_elem? xs i ≡ some x → set xs i x ≡ xs
  set_self [] i x e = refl
  set_self (y ∷ xs) zero x e = ap (λ z. z ∷ xs) (cc)
  set_self (y ∷ xs) (suc i) x e = ap (◌∷◌ y) (set_self xs i x e)

  pub set_beyond : (xs : List A) (i : ℕ) (x : A) → get_elem? xs i ≡ none → set xs i x ≡ xs
  set_beyond [] i x e = refl
  set_beyond (y ∷ xs) zero x e = absurd (cc)
  set_beyond (y ∷ xs) (suc i) x e = ap (◌∷◌ y) (set_beyond xs i x e)

module _ {ℓ} {A : Type ℓ} where
  pub none-ne-some : {o : Option A} {a : A} → o ≡ none → ¬ (o ≡ some a)
  none-ne-some e k = cc (sym e ∙ k)
