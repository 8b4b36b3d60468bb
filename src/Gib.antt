-- ===== src/Gib.antt =====
-- The trait `BytesToGib` of src/stream.rs, and how the proxy's log lines print such a number.
use xoa_proxy.Prelude.{ℕ, ◌*◌, ◌/◌, ◌%◌, ◌^◌, ◌+◌, [], ◌∷◌, ◌++◌}
use xoa_proxy.Rust.Text.{Text, codes}
use xoa_proxy.Rust.Float.{round_f64}
use xoa_proxy.Rust.Number.Print.{print_uint}

-- In hundredths, to which the result is truncated. The unit of the `f64` numbers before is
-- 2 ^ -30, so that the division by the bytes of a GiB is exact.
unfoldable pub bytes_to_gib : ℕ → ℕ
bytes_to_gib bytes = let gib = round_f64 bytes in round_f64 (gib * 100) / 2 ^ 30

-- `{:.2}`
unfoldable pub print_gib : ℕ → Text
print_gib gib =
    print_uint (gib / 100) ++ (codes "." ++ (b'0' + gib % 100 / 10) ∷ (b'0' + gib % 10) ∷ [])
