-- ===== src/Rust/Text/Laws.antt =====
-- What the searches in a text decide.
use mathlib.Core.List.{append-nil}
use xoa_proxy.Prelude.{
  ℕ, ◌≡◌, ◌≢◌, refl, ap, sym, ◌∙◌, ◌↔◌, ◌⊎◌, inl, inr, true, [], ◌∷◌, ◌++◌, arith, ==_iff,
  Bool-cases,
}
use xoa_proxy.Rust.Text.{Text, text_eq, starts_with, ends_with, contains, lower, to_lowercase}

pub text_eq-eq : (s t : Text) → text_eq s t ≡ true → s ≡ t
unfolding text_eq
text_eq-eq [] [] h = refl
text_eq-eq (c ∷ s) (d ∷ t) h = ground (arith, ==_iff c d, text_eq-eq s t)
text_eq-eq [] (d ∷ t) h = cc
text_eq-eq (c ∷ s) [] h = cc

pub text_eq_refl : (s : Text) → text_eq s s ≡ true
unfolding text_eq
text_eq_refl [] = refl
text_eq_refl (c ∷ s) = ground (arith, text_eq_refl s)

pub text_eq_iff : (s t : Text) → (text_eq s t ≡ true) ↔ (s ≡ t)
text_eq_iff s t = (text_eq-eq s t, λ e. rw e (text_eq_refl t))

pub text_eq-cases : (s t : Text) → (s ≡ t) ⊎ (s ≢ t)
text_eq-cases s t = elim (Bool-cases (text_eq s t)) [
  | inl same ↦ inl (text_eq-eq s t same)
  | inr other ↦ inr (λ e. cc (sym other ∙ (text_eq_iff s t).1 e))
]

pub starts_with-append : (p s : Text) → starts_with (p ++ s) p ≡ true
unfolding starts_with
starts_with-append [] s = refl
starts_with-append (c ∷ p) s = ground (arith, starts_with-append p s)

pub starts_with-split : (s p : Text) → starts_with s p ≡ true → (t : Text) × (s ≡ p ++ t)
unfolding starts_with
starts_with-split s [] h = (s, refl)
starts_with-split [] (p ∷ ps) h = cc
starts_with-split (c ∷ s) (p ∷ ps) h =
    let (t, e) = starts_with-split s ps (ground arith) in (t, ground (arith, e))

pub ends_with-append : (s p : Text) → ends_with (s ++ p) p ≡ true
unfolding ends_with
ends_with-append [] [] = refl
ends_with-append [] (c ∷ p) = ground (arith, text_eq_refl p)
ends_with-append (c ∷ s) p = ground (arith, ends_with-append s p)

pub ends_with-split : (s p : Text) → ends_with s p ≡ true → (t : Text) × (s ≡ t ++ p)
unfolding ends_with
ends_with-split [] p h = ([], text_eq-eq [] p h)
ends_with-split (c ∷ s) p h = elim (Bool-cases (text_eq (c ∷ s) p)) [
  | inl same ↦ ([], text_eq-eq (c ∷ s) p same)
  | inr other ↦ let (t, e) = ends_with-split s p (ground arith) in (c ∷ t, ap (◌∷◌ c) e)
]

pub contains-append : (a p b : Text) → contains (a ++ (p ++ b)) p ≡ true
unfolding contains
contains-append [] [] [] = refl
contains-append [] [] (c ∷ b) = refl
contains-append [] (c ∷ p) b = ground (arith, starts_with-append p b)
contains-append (c ∷ a) p b = ground (arith, contains-append a p b)

pub contains-suffix : (a p : Text) → contains (a ++ p) p ≡ true
contains-suffix a p = rw (append-nil p) at (contains-append a p [])

pub contains-split :
    (s p : Text) → contains s p ≡ true → (a : Text) × (b : Text) × (s ≡ a ++ (p ++ b))
unfolding contains
contains-split [] p h = let (t, e) = starts_with-split [] p h in ([], t, e)
contains-split (c ∷ s) p h = elim (Bool-cases (starts_with (c ∷ s) p)) [
  | inl here ↦ let (t, e) = starts_with-split (c ∷ s) p here in ([], t, e)
  | inr later ↦ let (a, b, e) = contains-split s p (ground arith) in (c ∷ a, b, ap (◌∷◌ c) e)
]

lower_idem : (c : ℕ) → lower (lower c) ≡ lower c
unfolding lower
lower_idem c = ground arith

pub to_lowercase_idem : (s : Text) → to_lowercase (to_lowercase s) ≡ to_lowercase s
unfolding to_lowercase
to_lowercase_idem [] = refl
to_lowercase_idem (c ∷ s) = cc (lower_idem c, to_lowercase_idem s)
