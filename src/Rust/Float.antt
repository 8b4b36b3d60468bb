-- ===== src/Rust/Float.antt =====
-- The rounding of Rust's `f64`.
use xoa_proxy.Prelude.{
  ℕ, zero, suc, ◌+◌, ◌*◌, ◌/◌, ◌%◌, ◌^◌, ◌<◌, ◌≡◌, refl, ◌&&◌, ◌||◌, ltb, ◌==◌, lt→ltb, arith,
  if◌then◌else◌,
}

-- How many of the low bits of `n` lie below the 53 bits of a significand. A number below
-- 2 ^ (52 + fuel) needs no more fuel.
exponent : ℕ → ℕ → ℕ
exponent zero n = 0
exponent (suc fuel) n = let rest = exponent fuel (n / 2) in if ltb n (2 ^ 53) then 0 else suc rest

-- `n` to the nearest multiple of `unit`, and to the even one of two.
nearest : ℕ → ℕ → ℕ
nearest n unit =
    if ltb (n % unit * 2) unit || (n % unit * 2 == unit && n / unit % 2 == 0)
    then n / unit * unit
    else (n / unit + 1) * unit

-- The `f64` that is nearest to `n`, for an `n` below 2 ^ 116. Any power of 2 may be the unit.
unfoldable pub round_f64 : ℕ → ℕ
unfolding exponent nearest
round_f64 n = nearest n (2 ^ exponent 64 n)

exponent_of_small : (fuel n : ℕ) → n < 2 ^ 53 → exponent fuel n ≡ 0
unfolding exponent
exponent_of_small zero n few = refl
exponent_of_small (suc fuel) n few = rw (lt→ltb n (2 ^ 53) few) refl

nearest-one : (n : ℕ) → nearest n 1 ≡ n
unfolding nearest
nearest-one n = ground arith

-- A number of 53 bits is an `f64`.
pub round_f64-exact : (n : ℕ) → n < 2 ^ 53 → round_f64 n ≡ n
unfolding round_f64
round_f64-exact n few = rw (exponent_of_small 64 n few) (nearest-one n)

-- A number of 54 bits is rounded to an even one, and a tie to a multiple of 4.
rounds_down : round_f64 (2 ^ 53 + 1) ≡ 2 ^ 53
unfolding round_f64 exponent nearest
rounds_down = refl

rounds_up : round_f64 (2 ^ 53 + 3) ≡ 2 ^ 53 + 4
unfolding round_f64 exponent nearest
rounds_up = refl
