-- ===== src/Config/RoundTrip.antt =====
-- Settings written the way Rust's `Display` writes numbers.
use xoa_proxy.Prelude.{◌^◌, ◌<◌, ◌≡◌, refl, Option, some, lt→ltb}
use xoa_proxy.Rust.Text.{Text, codes}
use xoa_proxy.Rust.Number.Print.{print_uint, parse_uint-print_uint}
use xoa_proxy.Config.{Config, load}

-- Every configuration can be written into the environment and is read back from it: with the port,
-- the address and the idle delay printed into their variables, a port below 2 ^ 16 and a positive
-- delay below 2 ^ 64, `load` returns exactly these three.
pub load-print_uint :
    (env : Text → Option Text) (c : Config)
    → env (codes "XOA_PROXY_PORT") ≡ some (print_uint c.port)
    → env (codes "XOA_PROXY_BIND") ≡ some c.bind
    → env (codes "XOA_PROXY_IDLE_SECONDS") ≡ some (print_uint c.idle_timeout)
    → c.port < 2 ^ 16
    → 0 < c.idle_timeout
    → c.idle_timeout < 2 ^ 64
    → load env ≡ c
unfolding load
load-print_uint env c port bind idle p lo hi =
    rw
      (
        port,
        bind,
        idle,
        parse_uint-print_uint (2 ^ 16) c.port p,
        parse_uint-print_uint (2 ^ 64) c.idle_timeout hi,
        lt→ltb 0 c.idle_timeout lo,
      )
      refl
