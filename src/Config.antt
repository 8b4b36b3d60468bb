-- ===== src/Config.antt =====
-- src/config.rs: the configuration, read once from the environment.
pub mod Laws
pub mod RoundTrip
use xoa_proxy.Prelude.{ℕ, ◌^◌, Option, and_then, keep_if, unwrap_or, ltb}
use xoa_proxy.Rust.Text.{Text, codes}
use xoa_proxy.Rust.Number.{parse_uint}

pub record Config : Type 0 where
  pub port : ℕ  -- u16
  pub bind : Text
  pub idle_timeout : ℕ  -- `Duration`, in seconds

-- `Config::load`. `env` is `env::var(..).ok()`.
unfoldable pub load : (Text → Option Text) → Config
load env = record {
  port = unwrap_or 9001 (and_then (env (codes "XOA_PROXY_PORT")) (parse_uint (2 ^ 16)));
  bind = unwrap_or (codes "127.0.0.1") (env (codes "XOA_PROXY_BIND"));
  idle_timeout = unwrap_or 60 (
      keep_if (λ s. ltb 0 s)
        (and_then (env (codes "XOA_PROXY_IDLE_SECONDS")) (parse_uint (2 ^ 64))));
}
