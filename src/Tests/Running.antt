-- ===== src/Tests/Running.antt =====
-- Processes at concrete environments and events.
use xoa_proxy.Prelude.{
  ℕ, ◌+◌, ◌≤◌, ◌≡◌, refl, true, false, Bool, Option, none, some, List, [], ◌∷◌, arith,
  if◌then◌else◌,
}
use xoa_proxy.Rust.Text.{Text, codes, text_eq}
use xoa_proxy.Rust.Number.{parse_uint}
use xoa_proxy.Rust.Result.{ok}
use xoa_proxy.Config.{load}
use xoa_proxy.Stream.{build_client, client_settings}
use xoa_proxy.Lifecycle.Activity.{new_activity, enter, leave, increment, decrement}
use xoa_proxy.Lifecycle.Listener.{Sockets, listener, adopt}
use xoa_proxy.Lifecycle.Listener.Laws.{Start, listener-Start}
use xoa_proxy.Lifecycle.Idle.{start_idle, poll_idle, turn, turns, add_duration}
use xoa_proxy.Handler.{handle_not_found}
use xoa_proxy.Server.{unknown_path, arrives, drops, step, start, arrive, serve, advance, release}
use xoa_proxy.Server.Count.{total}
use xoa_proxy.Server.Invariant.{active}
use xoa_proxy.Process.{
  Process, Event, serves, waits, terminates, wakes, shutdown_signal, main, assemble, run_event,
  run_events,
}
use xoa_proxy.Process.Startup.{Startup}
use xoa_proxy.Process.Ending.{idle_stop}
use xoa_proxy.Process.Reason.{sigterm, signal_log, poll_shutdown_log, Reason, stop_is_logged}
use xoa_proxy.Process.Stop.{unsignalled_stop}
use xoa_proxy.Tests.Example.{example_crates, example_mutex, example_watch}

-- systemd's environment for the process 42; no system call fails.
abbrev pub activating : Text → Option Text
activating name =
    if text_eq name (codes "LISTEN_PID")
    then some (codes "42")
    else if text_eq name (codes "LISTEN_FDS")
    then some (codes "1")
    else none

abbrev pub sockets : (Text → Option Text) → Sockets
sockets env = record {
  Listener = ℕ;
  StdListener = ℕ;
  Error = ℕ;
  env = env;
  process_id = 42;
  bind = λ bind port. ok port;
  from_raw_fd = λ fd. fd;
  local_addr = λ l. ok tt;
  set_nonblocking = λ l. ok l;
  from_std = λ l. ok l;
  ctrl_c_installs = true;
  sigterm_installs = true;
}

abbrev unset : Text → Option Text
unset name = none

adopts_fd_3 : listener (sockets activating) (codes "127.0.0.1") 9001 ≡ ok (3, true)
unfolding listener adopt parse_uint text_eq
adopts_fd_3 = refl

listener-Start_example :
    Start
      (sockets activating)
      (codes "127.0.0.1")
      9001
      (listener (sockets activating) (codes "127.0.0.1") 9001)
listener-Start_example = listener-Start (sockets activating) (codes "127.0.0.1") 9001

abbrev pub started : (env : Text → Option Text) → Bool → Process example_crates (sockets env)
started env activated =
    assemble example_crates (sockets env)
      (start example_crates (client_settings true) (client_settings false)) 60_000_000_000 activated
      0

-- A request comes and goes 59 seconds after the start, and 60 seconds pass after it.
abbrev late_request : (env : Text → Option Text) → List (Event example_crates (sockets env))
late_request env =
    wakes true
    ∷ waits 59_000_000_000
    ∷ serves (arrives (unknown_path (codes "/")))
    ∷ wakes false
    ∷ serves (drops 0)
    ∷ wakes false
    ∷ waits 60_000_000_000
    ∷ wakes false
    ∷ []

abbrev after_late_request : (env : Text → Option Text) → Bool → Process example_crates (sockets env)
after_late_request env activated =
    run_events example_crates (sockets env) (started env activated) (late_request env)

unsignalled_stop_example :
    (total (active example_crates) (after_late_request activating true).server.tasks ≡ 0)
    × ((after_late_request activating true).server.app.import_lock ≡ false)
    × ((after_late_request activating true).since
          + (after_late_request activating true).idle_timeout
        ≤ (after_late_request activating true).now)
unfolding shutdown_signal main load listener adopt parse_uint text_eq build_client run_events
    run_event assemble step arrive serve advance release start new_activity enter leave increment
    decrement handle_not_found start_idle poll_idle turn turns add_duration
unsignalled_stop_example =
    unsignalled_stop example_crates (sockets activating) example_mutex example_watch true
      (λ l. ok tt) 0 (started activating true) (late_request activating) refl refl refl refl
      (omega arith) (omega arith)

-- The same history without a signal: a standalone process goes on.
standalone_goes_on : (after_late_request unset false).stopping ≡ false
unfolding shutdown_signal run_events run_event assemble step arrive serve advance release start
    new_activity enter leave increment decrement
standalone_goes_on = refl

-- A signal while a request is active.
abbrev terminated_events : List (Event example_crates (sockets activating))
terminated_events = wakes true ∷ serves (arrives (unknown_path (codes "/"))) ∷ terminates ∷ []

abbrev terminated : Process example_crates (sockets activating)
terminated =
    run_events example_crates (sockets activating) (started activating true) terminated_events

stop_is_logged_example :
    Reason example_crates
      (sockets activating)
      example_mutex
      example_watch
      terminated
      true
      (sigterm ∷ [])
unfolding shutdown_signal main load listener adopt parse_uint text_eq build_client run_events
    run_event assemble step arrive serve advance start new_activity enter increment handle_not_found
    start_idle poll_idle turn turns add_duration poll_shutdown_log signal_log
stop_is_logged_example =
    stop_is_logged example_crates (sockets activating) example_mutex example_watch true (λ l. ok tt)
      0 (started activating true) terminated_events false true refl refl refl (omega arith)
      (omega arith)

-- A minute after a request has come and gone.
idle_stop_example :
    (run_events example_crates
      (sockets activating)
      (run_events example_crates
        (sockets activating)
        (started activating true)
        (wakes true ∷ serves (arrives (unknown_path (codes "/"))) ∷ serves (drops 0) ∷ []))
      (wakes false ∷ waits 60_000_000_000 ∷ wakes true ∷ [])).stopping
    ≡ true
unfolding shutdown_signal main load listener adopt parse_uint text_eq build_client run_events
    run_event assemble step arrive serve advance release start new_activity enter leave increment
    decrement handle_not_found start_idle poll_idle turn turns add_duration
idle_stop_example =
    idle_stop example_crates (sockets activating) example_mutex example_watch true (λ l. ok tt) 0
      (started activating true)
      (wakes true ∷ serves (arrives (unknown_path (codes "/"))) ∷ serves (drops 0) ∷ []) false true
      60_000_000_000 refl refl (λ alone. cc alone.0) refl (omega arith) (omega arith)
