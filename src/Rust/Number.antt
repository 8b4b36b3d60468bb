-- ===== src/Rust/Number.antt =====
-- `str::parse` into an unsigned integer.
pub mod Laws
pub mod Print
use xoa_proxy.Prelude.{
  ℕ, ◌+◌, ◌-◌, ◌*◌, Bool, ◌&&◌, Option, none, some, [], ◌∷◌, leb, ltb, ◌==◌, if◌then◌else◌,
}
use xoa_proxy.Rust.Text.{Text}

is_digit : ℕ → Bool
is_digit c = leb b'0' c && leb c b'9'

-- The digits of `from_str_radix`; `none` for a character that is no digit and for an overflow.
parse_digits : ℕ → ℕ → Text → Option ℕ
unfolding is_digit
parse_digits bound acc [] = some acc
parse_digits bound acc (c ∷ s) =
    let next = acc * 10 + (c - b'0') in
    let rest = parse_digits bound next s in if is_digit c && ltb next bound then rest else none

strip_plus : Text → Text
strip_plus [] = []
strip_plus (c ∷ s) = if c == b'+' then s else c ∷ s

abbrev digits_of : ℕ → Text → Option ℕ
digits_of bound [] = none
digits_of bound (c ∷ s) = parse_digits bound 0 (c ∷ s)

-- One `+` may stand in front, and one digit at least must follow. `bound` is 2 ^ the width.
unfoldable pub parse_uint : ℕ → Text → Option ℕ
unfolding parse_digits strip_plus
parse_uint bound s = digits_of bound (strip_plus s)
