-- ===== src/Process/Startup.antt =====
-- How `main` starts, or why it does not.
use xoa_proxy.Prelude.{ℕ, ◌*◌, ◌≡◌, Bool, true, false}
use xoa_proxy.Rust.Text.{codes}
use xoa_proxy.Rust.Result.{Result, ok, err}
use xoa_proxy.Crates.{Crates}
use xoa_proxy.Config.{load}
use xoa_proxy.Stream.{client_settings}
use xoa_proxy.Lifecycle.Listener.{Sockets, Failure, listener}
use xoa_proxy.Server.{start}
use xoa_proxy.Process.{Process, StartError, log_file, client, socket, address, assemble}

module _ (c : Crates) (o : Sockets) where
  abbrev config_listener : Result (Failure o.Error) (o.Listener × Bool)
  config_listener = listener o (load o.env).bind (load o.env).port

  -- The steps that have succeeded before the row's own.
  abbrev HasClients : c.Client → c.Client → Type 0
  HasClients v n =
      (c.build (client_settings true) ≡ ok v) × (c.build (client_settings false) ≡ ok n)

  pub data Startup (log_opens : Bool) (local_addr : o.Listener → Result o.Error (Unit {0}))
      (now : ℕ) (out : Result (StartError o.Error) (Process c o)) : Type 0 where
    no_log : log_opens ≡ false → out ≡ err log_file → Startup log_opens local_addr now out
    no_verifying_client :
        (e : c.Error)
        → log_opens ≡ true
        → c.build (client_settings true) ≡ err e
        → out
          ≡ err (
              client
                (codes "Failed to build TLS-verifying HTTP client")
                (c.context_text (codes "Failed to build HTTP client") e))
        → Startup log_opens local_addr now out
    no_lenient_client :
        (v : c.Client) (e : c.Error)
        → log_opens ≡ true
        → c.build (client_settings true) ≡ ok v
        → c.build (client_settings false) ≡ err e
        → out
          ≡ err (
              client
                (codes "Failed to build TLS-non-verifying HTTP client")
                (c.context_text (codes "Failed to build HTTP client") e))
        → Startup log_opens local_addr now out
    no_socket :
        (v n : c.Client) (e : Failure o.Error)
        → log_opens ≡ true
        → HasClients v n
        → config_listener ≡ err e
        → out ≡ err (socket e)
        → Startup log_opens local_addr now out
    no_address :
        (v n : c.Client) (l : o.Listener) (activated : Bool) (e : o.Error)
        → log_opens ≡ true
        → HasClients v n
        → config_listener ≡ ok (l, activated)
        → local_addr l ≡ err e
        → out ≡ err (address e)
        → Startup log_opens local_addr now out
    serving :
        (v n : c.Client) (l : o.Listener) (activated : Bool)
        → log_opens ≡ true
        → HasClients v n
        → config_listener ≡ ok (l, activated)
        → local_addr l ≡ ok tt
        → out
          ≡ ok
              (assemble c o (start c v n) ((load o.env).idle_timeout * 1_000_000_000) activated now)
        → Startup log_opens local_addr now out
