-- ===== src/Rust/Number/Laws.antt =====
-- What `str::parse` accepts, against the value of a row of decimal digits.
use xoa_proxy.Prelude.{
  ℕ, ◌+◌, ◌-◌, ◌*◌, ◌≤◌, ◌<◌, ◌≡◌, refl, ◌↔◌, ◌⊎◌, inl, inr, ◌≢◌, ◌&&◌, some, [], ◌∷◌, arith, ltb,
  Bool-cases,
}
use xoa_proxy.Rust.Text.{Text}
use xoa_proxy.Rust.Number.{is_digit, parse_digits, strip_plus, digits_of, parse_uint}

abbrev pub AllDigits : Text → Type 0
AllDigits [] = Unit
AllDigits (c ∷ s) = (b'0' ≤ c) × (c ≤ b'9') × AllDigits s

-- The number that a row of digits stands for, behind those that `acc` stands for.
abbrev pub decimal_value : ℕ → Text → ℕ
decimal_value acc [] = acc
decimal_value acc (c ∷ s) = decimal_value (acc * 10 + (c - b'0')) s

-- `s` is `n` in decimal, with leading zeros and one `+` allowed.
abbrev pub Denotes : Text → ℕ → Type 0
Denotes s n =
    (ds : Text) × ((s ≡ ds) ⊎ (s ≡ b'+' ∷ ds)) × (ds ≢ []) × AllDigits ds × (decimal_value 0 ds ≡ n)

decimal_value_grows : (acc : ℕ) (s : Text) → acc ≤ decimal_value acc s
decimal_value_grows acc [] = omega arith
decimal_value_grows acc (c ∷ s) = omega (arith, decimal_value_grows (acc * 10 + (c - b'0')) s)

parse_digits_sound :
    (bound acc : ℕ) (s : Text) {n : ℕ}
    → acc < bound
    → parse_digits bound acc s ≡ some n
    → AllDigits s × (decimal_value acc s ≡ n) × (n < bound)
unfolding parse_digits
parse_digits_sound bound acc [] h e = (tt, ground arith, ground arith)
parse_digits_sound bound acc (c ∷ s) h e =
    elim (Bool-cases (is_digit c && ltb (acc * 10 + (c - b'0')) bound)) [
      | inl fits ↦
          let (ds, v, lt) =
            parse_digits_sound bound (acc * 10 + (c - b'0')) s (ground arith) (rw fits at e) in
          ((ground arith, ground arith, ds), v, lt)
      | inr bad ↦ absurd (cc (rw bad at e))
    ]

parse_digits_complete :
    (bound acc : ℕ) (s : Text)
    → AllDigits s
    → decimal_value acc s < bound
    → parse_digits bound acc s ≡ some (decimal_value acc s)
unfolding parse_digits
parse_digits_complete bound acc [] d h = refl
parse_digits_complete bound acc (c ∷ s) (lo, hi, d) h = ground (
  arith,
  decimal_value_grows (acc * 10 + (c - b'0')) s,
  parse_digits_complete bound (acc * 10 + (c - b'0')) s d h,
)

digits_of_sound :
    (bound : ℕ) (s : Text) {n : ℕ}
    → 0 < bound
    → digits_of bound s ≡ some n
    → (s ≢ []) × AllDigits s × (decimal_value 0 s ≡ n) × (n < bound)
digits_of_sound bound [] b e = absurd (cc)
digits_of_sound bound (c ∷ s) b e =
    let (ds, v, lt) = parse_digits_sound bound 0 (c ∷ s) b e in (λ h. cc, ds, v, lt)

digits_of_complete :
    (bound : ℕ) (s : Text)
    → s ≢ []
    → AllDigits s
    → decimal_value 0 s < bound
    → digits_of bound s ≡ some (decimal_value 0 s)
digits_of_complete bound [] ne d h = absurd (ne refl)
digits_of_complete bound (c ∷ s) ne d h = parse_digits_complete bound 0 (c ∷ s) d h

strip_plus-shape : (s : Text) → (s ≡ strip_plus s) ⊎ (s ≡ b'+' ∷ strip_plus s)
unfolding strip_plus
strip_plus-shape [] = inl refl
strip_plus-shape (c ∷ s) = ground arith

strip_plus-digits : (s : Text) → AllDigits s → strip_plus s ≡ s
unfolding strip_plus
strip_plus-digits [] d = refl
strip_plus-digits (c ∷ s) d = ground arith

strip_plus-plus : (s : Text) → strip_plus (b'+' ∷ s) ≡ s
unfolding strip_plus
strip_plus-plus s = refl

-- Parsing succeeds exactly on the decimal numerals of the numbers below the bound.
pub parse_uint_iff :
    (bound : ℕ) (s : Text) (n : ℕ)
    → 0 < bound
    → (parse_uint bound s ≡ some n) ↔ (Denotes s n × (n < bound))
unfolding parse_uint
parse_uint_iff bound s n b = (
  λ e.
      let (ne, ds, v, lt) = digits_of_sound bound (strip_plus s) b e in
      ((strip_plus s, strip_plus-shape s, ne, ds, v), lt),
  λ h. complete h.0 h.1,
)
  where
    complete : Denotes s n → n < bound → digits_of bound (strip_plus s) ≡ some n
    complete (ds, inl e, ne, d, v) lt =
        rw (e, strip_plus-digits ds d, ← v) (digits_of_complete bound ds ne d (rw v lt))
    complete (ds, inr e, ne, d, v) lt =
        rw (e, strip_plus-plus ds, ← v) (digits_of_complete bound ds ne d (rw v lt))
