-- ===== src/Rust/Text/Case.antt =====
-- Texts compared without regard to the case of their ASCII letters.
use mathlib.Core.List.{map-append}
use xoa_proxy.Prelude.{ℕ, ◌+◌, ◌≤◌, ◌≡◌, refl, ap, ◌∙◌, ◌↔◌, ◌⊎◌, true, [], ◌∷◌, ◌++◌, map, arith}
use xoa_proxy.Rust.Text.{Text, lower, to_lowercase, contains}
use xoa_proxy.Rust.Text.Laws.{contains-append, contains-split}

-- A word of lower-case letters.
abbrev pub AllLower : Text → Type 0
AllLower [] = Unit
AllLower (d ∷ word) = (b'a' ≤ d) × (d ≤ b'z') × AllLower word

-- The text is the word, with each letter in lower or in upper case.
abbrev pub EqualsIgnoringCase : Text → Text → Type 0
EqualsIgnoringCase [] [] = Unit
EqualsIgnoringCase [] (d ∷ word) = ⊥
EqualsIgnoringCase (x ∷ text) [] = ⊥
EqualsIgnoringCase (x ∷ text) (d ∷ word) = ((x ≡ d) ⊎ (x + 32 ≡ d)) × EqualsIgnoringCase text word

abbrev pub HasIgnoringCase : Text → Text → Type 0
HasIgnoringCase text word =
    (before : Text) × (same : Text) × (after : Text) × (text ≡ before ++ (same ++ after))
    × EqualsIgnoringCase same word

lower_iff : (x d : ℕ) → b'a' ≤ d → d ≤ b'z' → (lower x ≡ d) ↔ ((x ≡ d) ⊎ (x + 32 ≡ d))
unfolding lower
lower_iff x d lo hi = ground arith

lowered_iff :
    (text word : Text) → AllLower word → (to_lowercase text ≡ word) ↔ EqualsIgnoringCase text word
unfolding to_lowercase
lowered_iff [] [] h = (λ e. tt, λ e. refl)
lowered_iff [] (d ∷ word) h = (λ e. cc, λ e. elim e [ ])
lowered_iff (x ∷ text) [] h = (λ e. cc, λ e. elim e [ ])
lowered_iff (x ∷ text) (d ∷ word) (lo, hi, h) =
    let (to, from) = lowered_iff text word h in
    let (to', from') = lower_iff x d lo hi in
    (λ e. (to' (cc (e)), to (cc (e))), λ (same, rest). cc (from' same, from rest))

-- A split of a lowered text is a split of the text.
map-split :
    (f : ℕ → ℕ) (text xs ys : Text)
    → map f text ≡ xs ++ ys
    → (before : Text) × (after : Text) × (text ≡ before ++ after)
      × (map f before ≡ xs)
      × (map f after ≡ ys)
map-split f text [] ys e = ([], text, refl, refl, e)
map-split f [] (x ∷ xs) ys e = cc
map-split f (t ∷ text) (x ∷ xs) ys e =
    let (before, after, split, same, rest) = map-split f text xs ys (cc (e)) in
    (t ∷ before, after, ap (◌∷◌ t) split, cc (e, same), rest)

-- A lowered text has a word of lower-case letters in it if and only if the text has it in any case.
pub contains_lowered :
    (text word : Text)
    → AllLower word
    → (contains (to_lowercase text) word ≡ true) ↔ HasIgnoringCase text word
unfolding to_lowercase
contains_lowered text word h = (
  λ found.
      let (a, b, e) = contains-split (to_lowercase text) word found in
      let (before, rest, split, _, later) = map-split lower text a (word ++ b) e in
      let (same, after, split', word', _) = map-split lower rest word b later in
      (
        before,
        same,
        after,
        split ∙ ap (λ r. before ++ r) split',
        (lowered_iff same word h).0 word',
      ),
  λ (before, same, after, split, equal).
      let word' = (lowered_iff same word h).1 equal in
      rw (split, map-append lower before (same ++ after), map-append lower same after, word')
        (contains-append (map lower before) word (map lower after)),
)
