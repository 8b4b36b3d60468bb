-- ===== src/Lifecycle/Listener.antt =====
-- src/lifecycle.rs: `listener`, the socket that systemd passed on, or one of its own.
pub mod Laws
pub mod RoundTrip
use xoa_proxy.Prelude.{
  ℕ, ◌^◌, Bool, true, false, not, ◌&&◌, ◌||◌, Option, none, some, and_then, is_none, ◌==◌,
  if◌then◌else◌,
}
use xoa_proxy.Rust.Text.{Text, codes, text_eq}
use xoa_proxy.Rust.Number.{parse_uint}
use xoa_proxy.Rust.Result.{Result, ok, err, ◌>>=◌, map_err}

-- The process, the sockets and the signal handlers of the operating system, as far as `listener` and
-- `main` ask for them.
pub record Sockets : Type 1 where
  pub Listener : Type 0  -- tokio's
  pub StdListener : Type 0
  pub Error : Type 0
  pub env : Text → Option Text
  pub process_id : ℕ
  pub bind : Text → ℕ → Result Error Listener
  pub from_raw_fd : ℕ → StdListener
  pub local_addr : StdListener → Result Error (Unit {0})
  pub set_nonblocking : StdListener → Result Error StdListener
  pub from_std : StdListener → Result Error Listener
  pub ctrl_c_installs : Bool  -- tokio installs the handler of SIGINT
  pub sigterm_installs : Bool

-- An `anyhow::Error`
pub data Failure (E : Type 0) : Type 0 where
  bailed : Text → Failure E
  with_context : Text → E → Failure E
  raised : E → Failure E

-- `option != Some(value)`, negated
abbrev pub is_number : Option ℕ → ℕ → Bool
is_number none n = false
is_number (some m) n = m == n

abbrev pub is_text : Option Text → Text → Bool
is_text none t = false
is_text (some s) t = text_eq s t

module _ (o : Sockets) where
  -- The activated descriptor, once the environment is found to name it.
  unfoldable pub adopt : o.StdListener → Result (Failure o.Error) (o.Listener × Bool)
  adopt socket = do
    addr ← map_err (with_context (codes "Activated fd 3 is not an IP socket")) (o.local_addr socket)
    ready ← map_err raised (o.set_nonblocking socket)
    listening ← map_err raised (o.from_std ready)
    ok (listening, true)

  unfoldable pub bind_own : Text → ℕ → Result (Failure o.Error) (o.Listener × Bool)
  bind_own bind port = do listening ← map_err raised (o.bind bind port); ok (listening, false)

  unfoldable pub listener : Text → ℕ → Result (Failure o.Error) (o.Listener × Bool)
  listener bind port =
      let pid = o.env (codes "LISTEN_PID") in
      let fds = o.env (codes "LISTEN_FDS") in
      if is_none pid && is_none fds
      then bind_own bind port
      else if not (is_number (and_then pid (parse_uint (2 ^ 32))) o.process_id)
          || not (is_text fds (codes "1"))
      then err
          (bailed (codes "Expected LISTEN_PID for this process and exactly one LISTEN_FDS socket"))
      else adopt (o.from_raw_fd 3)
