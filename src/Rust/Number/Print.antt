-- ===== src/Rust/Number/Print.antt =====
-- Decimal numerals without leading zeros, as Rust's `Display` and systemd write them.
use xoa_proxy.Prelude.{
  ℕ, zero, suc, ◌+◌, ◌-◌, ◌*◌, ◌/◌, ◌%◌, ◌<◌, ◌≡◌, refl, ◌∙◌, inl, inr, ◌≢◌, some, Bool-cases, [],
  ◌∷◌, ◌++◌, arith, ltb, if◌then◌else◌,
}
use xoa_proxy.Rust.Text.{Text}
use xoa_proxy.Rust.Number.{parse_uint}
use xoa_proxy.Rust.Number.Laws.{AllDigits, decimal_value, Denotes, parse_uint_iff}

-- `fuel` is at least the number of digits.
print_digits : ℕ → ℕ → Text
print_digits zero n = []
print_digits (suc fuel) n =
    let leading = print_digits fuel (n / 10) in
    if ltb n 10 then (b'0' + n) ∷ [] else leading ++ (b'0' + n % 10) ∷ []

-- A number has at most as many digits as its successor counts.
unfoldable pub print_uint : ℕ → Text
unfolding print_digits
print_uint n = print_digits (suc n) n

AllDigits-append : (s t : Text) → AllDigits s → AllDigits t → AllDigits (s ++ t)
AllDigits-append [] t d e = e
AllDigits-append (c ∷ s) t (lo, hi, d) e = (lo, hi, AllDigits-append s t d e)

decimal_value-append :
    (acc : ℕ) (s t : Text) → decimal_value acc (s ++ t) ≡ decimal_value (decimal_value acc s) t
decimal_value-append acc [] t = refl
decimal_value-append acc (c ∷ s) t = decimal_value-append (acc * 10 + (c - b'0')) s t

append-ne-nil : (s t : Text) → t ≢ [] → s ++ t ≢ []
append-ne-nil [] t h e = h e
append-ne-nil (c ∷ s) t h e = cc

print_digits_lem :
    (fuel n : ℕ)
    → n < fuel
    → (print_digits fuel n ≢ [])
      × AllDigits (print_digits fuel n)
      × (decimal_value 0 (print_digits fuel n) ≡ n)
unfolding print_digits
print_digits_lem zero n h = absurd (omega arith)
print_digits_lem (suc fuel) n h = elim (Bool-cases (ltb n 10)) [
  | inl one ↦ rw one (λ e. cc, (omega arith, ground arith, tt), omega arith)
  | inr more ↦
      let (ne, ds, v) = print_digits_lem fuel (n / 10) (ground arith) in
      let last : Text = (b'0' + n % 10) ∷ [] in
      rw more (
        append-ne-nil (print_digits fuel (n / 10)) last (λ e. cc),
        AllDigits-append (print_digits fuel (n / 10)) last ds (omega arith, omega arith, tt),
        decimal_value-append 0 (print_digits fuel (n / 10)) last ∙ omega (arith, v),
      )
]

pub print_uint-Denotes : (n : ℕ) → Denotes (print_uint n) n
unfolding print_uint
print_uint-Denotes n =
    let (ne, ds, v) = print_digits_lem (suc n) n (omega arith) in
    (print_digits (suc n) n, inl refl, ne, ds, v)

-- What is printed is read back.
pub parse_uint-print_uint : (bound n : ℕ) → n < bound → parse_uint bound (print_uint n) ≡ some n
parse_uint-print_uint bound n h =
    (parse_uint_iff bound (print_uint n) n (omega arith)).1 (print_uint-Denotes n, h)
