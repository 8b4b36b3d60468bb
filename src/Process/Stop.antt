-- ===== src/Process/Stop.antt =====
-- Why a process that `main` started stops: on a signal, or because it is idle.
use xoa_proxy.Server.Imports.{ended-free}
use xoa_proxy.Config.{load}
use xoa_proxy.Lifecycle.Listener.Laws.{IsStandalone}
use xoa_proxy.Prelude.{
  ℕ, ◌+◌, ◌*◌, ◌≤◌, ◌<◌, ◌≡◌, refl, sym, ◌∙◌, inl, inr, Bool, true, false, List, arith,
}
use xoa_proxy.Rust.Result.{Result, ok}
use xoa_proxy.Crates.{Crates}
use xoa_proxy.Crates.Laws.{MutexLaws, WatchLaws}
use xoa_proxy.Lifecycle.Activity.{usize_mod}
use xoa_proxy.Lifecycle.Listener.{Sockets}
use xoa_proxy.Lifecycle.Idle.{instant_limit, start_idle}
use xoa_proxy.Lifecycle.Idle.Laws.{IsIdle, IsRunning, start_idle-Tracks}
use xoa_proxy.Server.{start}
use xoa_proxy.Server.Count.{total}
use xoa_proxy.Server.Invariant.{active}
use xoa_proxy.Server.Steps.{start-Inv}
use xoa_proxy.Process.{installs_handlers, Process, Event, is_signalled, run_events, main, assemble}
use xoa_proxy.Process.Runs.{Runs}
use xoa_proxy.Process.Shutdown.{events-Runs}
use xoa_proxy.Process.Started.{Started, main-Started}
use xoa_proxy.Process.Activation.{events-idle, standalone-idle}

module _ (c : Crates) (o : Sockets) where
  module _ (mutex : MutexLaws c) (watch : WatchLaws c) where
    assemble-Runs :
        (v n : c.Client) (timeout now : ℕ) (activated : Bool)
        → Runs c o mutex watch (assemble c o (start c v n) timeout activated now)
    unfolding assemble start_idle
    assemble-Runs v n timeout now false = record {
      valid = start-Inv c mutex watch v n;
      ordered = omega arith;
      follows = inr tt;
      justified = inl refl;
    }
    assemble-Runs v n timeout now true = record {
      valid = start-Inv c mutex watch v n;
      ordered = omega arith;
      follows = inr (
          inl (
            started_running timeout (start c v n).activity,
            start_idle-Tracks c watch timeout (start c v n).activity now now (omega arith),
          ));
      justified = inl refl;
    }
      where
        started_running : (timeout : ℕ) (a : c.Sender) → IsRunning c watch timeout (start_idle c a)
        started_running timeout a = tt

    -- Any run of a process that `main` started.
    pub run-Runs :
        (now : ℕ) (p : Process c o) (events : List (Event c o))
        → installs_handlers c o ≡ true
        → Started c o now p
        → Runs c o mutex watch (run_events c o p events)
    run-Runs now p events installs s = events-Runs c o mutex watch p events installs (
        rw s.assembled (
          assemble-Runs s.client_verify s.client_no_verify
            ((load o.env).idle_timeout * 1_000_000_000) now s.activated))

    -- If the signal handlers are installed, a process that `main` started, and that stops serving
    -- though no signal has arrived, has no active request and a free import lock, and no request has
    -- begun or ended for the whole idle timeout, whatever the requests, disconnections, polls and
    -- times before were, as long as fewer than 2 ^ 64 requests are active and the clock can represent
    -- the time plus the timeout.
    pub unsignalled_stop :
        (log_opens : Bool) (local_addr : o.Listener → Result o.Error (Unit {0})) (now : ℕ)
        (p : Process c o) (events : List (Event c o))
        → main c o log_opens local_addr now ≡ ok p
        → installs_handlers c o ≡ true
        → (run_events c o p events).stopping ≡ true
        → is_signalled c o (run_events c o p events) ≡ false
        → total (active c) (run_events c o p events).server.tasks < usize_mod
        → (run_events c o p events).now + (run_events c o p events).idle_timeout < instant_limit
        → (total (active c) (run_events c o p events).server.tasks ≡ 0)
          × (mutex.locked (run_events c o p events).server.app.import_lock ≡ false)
          × ((run_events c o p events).since + (run_events c o p events).idle_timeout
              ≤ (run_events c o p events).now)
    unsignalled_stop log_opens local_addr now p events starts installs stops unsignalled few fits =
        let q : Process c o = run_events c o p events in
        let v =
          run-Runs now p events installs (main-Started c o log_opens local_addr now p starts) in
        let idle = idle_reason q v stops unsignalled fits in
        let ended : total (active c) q.server.tasks ≡ 0 =
          omega (arith, v.valid.counted, idle.none_active) in
        (ended, ended-free c mutex watch q.server v.valid ended, idle.long_enough)
      where
        idle_reason :
            (q : Process c o)
            → Runs c o mutex watch q
            → q.stopping ≡ true
            → is_signalled c o q ≡ false
            → q.now + q.idle_timeout < instant_limit
            → IsIdle c watch q.idle_timeout q.server.activity q.now q.since
        idle_reason q v stops unsignalled fits = elim v.justified [
          | inl runs ↦ absurd (cc (sym runs ∙ stops))
          | inr (inl signalled) ↦ absurd (cc (sym unsignalled ∙ signalled))
          | inr (inr (_, inl idle)) ↦ idle
          | inr (inr (_, inr beyond)) ↦ absurd (omega arith)
        ]

  -- A process that `main` started with neither LISTEN_PID nor LISTEN_FDS set, and whose signal handlers
  -- are installed, stops on a signal only, however long it is idle.
  standalone_stop :
      (mutex : MutexLaws c) (watch : WatchLaws c) (log_opens : Bool)
      (local_addr : o.Listener → Result o.Error (Unit {0})) (now : ℕ) (p : Process c o)
      (events : List (Event c o))
      → main c o log_opens local_addr now ≡ ok p
      → IsStandalone o
      → installs_handlers c o ≡ true
      → (run_events c o p events).stopping ≡ true
      → is_signalled c o (run_events c o p events) ≡ true
  standalone_stop mutex watch log_opens local_addr now p events starts alone installs stops =
      let s = main-Started c o log_opens local_addr now p starts in
      elim (run-Runs mutex watch now p events installs s).justified [
        | inl runs ↦ absurd (cc (sym runs ∙ stops))
        | inr (inl signalled) ↦ signalled
        | inr (inr (some_idle, _)) ↦
            absurd (some_idle (events-idle c o p events (standalone-idle c o now p s alone)))
      ]
