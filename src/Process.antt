-- ===== src/Process.antt =====
-- src/main.rs: the assembly of the process, and when it stops serving.
pub mod Touching
pub mod Runs
pub mod Wakes
pub mod Shutdown
pub mod Started
pub mod Startup
pub mod Activation
pub mod Stop
pub mod Polls
pub mod Ending
pub mod Reason
use xoa_proxy.Prelude.{
  ℕ, ◌+◌, ◌*◌, Bool, true, false, ◌&&◌, ◌||◌, Option, none, some, List, [], ◌∷◌, get_elem?,
  if◌then◌else◌,
}
use xoa_proxy.Rust.Text.{Text, codes}
use xoa_proxy.Rust.Result.{Result, ok, err, ◌>>=◌, map_err}
use xoa_proxy.Crates.{Crates}
use xoa_proxy.Config.{Config, load}
use xoa_proxy.State.{AppState}
use xoa_proxy.Stream.{build_client}
use xoa_proxy.Lifecycle.Listener.{Sockets, Failure, listener}
use xoa_proxy.Lifecycle.Idle.{Idle, returned, panicked, start_idle, poll_idle}
use xoa_proxy.Server.{
  Server, Action, arrives, rejects, answers, polls, drops, Task, awaiting, responding, rejected,
  gone, step, start,
}

-- Why `main` ends before it serves.
pub data StartError (E : Type 0) : Type 0 where
  log_file : StartError E
  client : Text → Text → StartError E  -- the context of `main`, and that of `build_client`
  socket : Failure E → StartError E
  address : E → StartError E

-- Whether `shutdown_signal` is ready, with its handlers installed: once `ctrl_c` or `sigterm` is.
unfoldable pub shutdown_signal : Bool → Bool → Bool
shutdown_signal ctrl_c sigterm = ctrl_c || sigterm

module _ (c : Crates) where
  -- Whether an action begins or ends a request.
  abbrev is_live : Option (Task c) → Bool
  is_live none = false
  is_live (some gone) = false
  is_live (some (awaiting held q k)) = true
  is_live (some (responding reply)) = true
  is_live (some (rejected status)) = true

  abbrev pub touches : Server c → Action c → Bool
  touches s (arrives call) = true
  touches s (rejects status) = true
  touches s (answers i r) = false
  touches s (polls i) = false
  touches s (drops i) = is_live (get_elem? s.tasks i)

  abbrev pub is_panicked : Idle c → Bool
  is_panicked panicked = true
  is_panicked _ = false

  -- Whether the serving ends with the idle future at this point.
  abbrev pub stops_at : Bool → Idle c → Bool
  stops_at signalled returned = true
  stops_at signalled panicked = c.stops_on_panic
  stops_at signalled _ = signalled

module _ (c : Crates) (o : Sockets) where
  -- A process that serves. `now` is the time; `idle` is the idle future, which is there just if the
  -- socket was activated.
  pub record Process : Type 0 where
    pub server : Server c
    pub idle_timeout : ℕ  -- nanoseconds
    pub idle : Option (Idle c)
    pub now : ℕ
    pub interrupted : Bool  -- SIGINT has arrived
    pub terminated : Bool  -- SIGTERM has arrived
    pub stopping : Bool
    -- The time of the last change of the activity count, for the statements alone.
    pub since : ℕ

  abbrev pub is_signalled : Process → Bool
  is_signalled p = shutdown_signal p.interrupted p.terminated

  -- The two `expect`s of `shutdown_signal` are passed.
  abbrev pub installs_handlers : Bool
  installs_handlers = o.ctrl_c_installs && o.sigterm_installs

  -- The start of the idle future, at the time `now`.
  idle_future : Bool → c.Sender → Option (Idle c)
  idle_future true activity = some (start_idle c activity)
  idle_future false activity = none

  -- The process as it begins to serve.
  unfoldable pub assemble : Server c → ℕ → Bool → ℕ → Process
  unfolding idle_future
  assemble server idle_timeout activated now = record {
    server = server;
    idle_timeout = idle_timeout;
    idle = idle_future activated server.activity;
    now = now;
    interrupted = false;
    terminated = false;
    stopping = false;
    since = now;
  }

  unfoldable pub main :
      Bool → (o.Listener → Result o.Error (Unit {0})) → ℕ → Result (StartError o.Error) Process
  main log_opens local_addr now = do
    log ← if log_opens then ok tt else err log_file
    let config = load o.env
    client_verify ←
        map_err (client (codes "Failed to build TLS-verifying HTTP client")) (build_client c true)
    client_no_verify ←
        map_err (client (codes "Failed to build TLS-non-verifying HTTP client"))
          (build_client c false)
    let server = start c client_verify client_no_verify
    bound ← map_err socket (listener o config.bind config.port)
    addr ← map_err address (local_addr bound.0)
    ok (assemble server (config.idle_timeout * 1_000_000_000) bound.1 now)

  pub data Event : Type 0 where
    serves : Action c → Event
    waits : ℕ → Event  -- nanoseconds pass
    interrupts : Event  -- SIGINT arrives
    terminates : Event  -- SIGTERM arrives
    -- The shutdown future is polled. Its `select!` chooses which branch it polls first.
    wakes : (signal_first : Bool) → Event

  -- What is left when the idle future has been polled, and stands at `next`.
  abbrev polled : Process → Idle c → Process
  polled p next = record p { idle = some next; stopping = stops_at c (is_signalled p) next }

  -- One poll of the future that is given to `with_graceful_shutdown`, with the handlers installed. A
  -- future that has panicked is not polled again.
  pub poll_shutdown : Bool → Option (Idle c) → Process → Process
  poll_shutdown signal_first none p = record p { stopping = is_signalled p }
  poll_shutdown signal_first (some future) p =
      if is_panicked c future
      then p
      else if signal_first && is_signalled p
      then record p { stopping = true }
      else polled p (poll_idle c p.idle_timeout p.now p.server.activity future)

  -- The first poll of the future installs the handlers, whichever branch it polls first, and panics
  -- if one is not installed.
  -- The process serves until its shutdown begins.
  unfoldable pub run_event : Process → Event → Process
  unfolding poll_shutdown
  run_event p (serves action) = record p {
    server = step c p.server action;
    since = if touches c p.server action then p.now else p.since;
  }
  run_event p (waits d) = record p { now = p.now + d }
  run_event p interrupts = record p { interrupted = true }
  run_event p terminates = record p { terminated = true }
  run_event p (wakes signal_first) =
      if installs_handlers
      then poll_shutdown signal_first p.idle p
      else record p { stopping = c.stops_on_panic }

  unfoldable pub run_events : Process → List Event → Process
  run_events p [] = p
  run_events p (e ∷ rest) = run_events (if p.stopping then p else run_event p e) rest
