-- ===== src/Lifecycle/Listener/RoundTrip.antt =====
-- The environment that systemd gives a process it activates.
use xoa_proxy.Prelude.{ℕ, ◌^◌, ◌<◌, ◌≡◌, some}
use xoa_proxy.Rust.Text.{Text, codes}
use xoa_proxy.Rust.Number.Print.{print_uint, print_uint-Denotes}
use xoa_proxy.Lifecycle.Listener.{Sockets, adopt, listener}
use xoa_proxy.Lifecycle.Listener.Laws.{listener-Start, standalone, activated, refused}

-- Whatever the process id below 2 ^ 32 and the address and port configured, a process for which
-- systemd printed its own id into LISTEN_PID and "1" into LISTEN_FDS takes over descriptor 3.
pub listener-print_uint :
    (o : Sockets) (bind : Text) (port : ℕ)
    → o.process_id < 2 ^ 32
    → o.env (codes "LISTEN_PID") ≡ some (print_uint o.process_id)
    → o.env (codes "LISTEN_FDS") ≡ some (codes "1")
    → listener o bind port ≡ adopt o (o.from_raw_fd 3)
listener-print_uint o bind port lt pid fds = elim (listener-Start o bind port) [
  | standalone (alone, _) e _ ↦ cc
  | activated _ _ e _ ↦ e
  | refused _ other e ↦
      absurd (other (print_uint o.process_id, pid, print_uint-Denotes o.process_id, lt, fds))
]
