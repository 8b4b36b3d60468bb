-- ===== src/Process/Reason.antt =====
-- src/main.rs: the lines that tell why the proxy shuts down.
use xoa_proxy.Prelude.{
  ℕ, ◌+◌, ◌≤◌, ◌<◌, ◌≡◌, refl, sym, ◌∙◌, ◌⊎◌, inl, inr, Bool, true, false, ◌&&◌, Bool-cases, Option,
  none, some, List, [], ◌∷◌, arith, if◌then◌else◌,
}
use xoa_proxy.Rust.Result.{Result, ok}
use xoa_proxy.Crates.{Crates}
use xoa_proxy.Crates.Laws.{MutexLaws, WatchLaws}
use xoa_proxy.Lifecycle.Activity.{usize_mod}
use xoa_proxy.Lifecycle.Listener.{Sockets}
use xoa_proxy.Lifecycle.Idle.{
  instant_limit, Idle, looping, quiet, busy, returned, panicked, poll_idle,
}
use xoa_proxy.Lifecycle.Idle.Laws.{Tracks}
use xoa_proxy.Server.Count.{total}
use xoa_proxy.Server.Imports.{ended-free}
use xoa_proxy.Server.Invariant.{active, Inv}
use xoa_proxy.Process.{
  installs_handlers, Process, Event, wakes, shutdown_signal, is_signalled, is_panicked, stops_at,
  poll_shutdown, run_event, run_events, main,
}
use xoa_proxy.Process.Polls.{Fits, wakes-installed, next-Tracks, alive_lem}
use xoa_proxy.Process.Runs.{Runs, Follows}
use xoa_proxy.Process.Started.{main-Started}
use xoa_proxy.Process.Stop.{run-Runs}

pub data ShutdownLine : Type 0 where
  idle_timeout sigint sigterm : ShutdownLine

-- The `select!` of `shutdown_signal`, which chooses which of the two it polls first.
unfoldable pub signal_log : (ctrl_c_first ctrl_c sigterm : Bool) → List ShutdownLine
signal_log true true terminated = sigint ∷ []
signal_log true false true = sigterm ∷ []
signal_log true false false = []
signal_log false interrupted true = sigterm ∷ []
signal_log false true false = sigint ∷ []
signal_log false false false = []

module _ (c : Crates) where
  -- The lines of a poll of the idle future, whose arm logs when it returns, and then of the signals.
  abbrev pub idle_log : Idle c → List ShutdownLine → List ShutdownLine
  idle_log returned signals = idle_timeout ∷ []
  idle_log panicked signals = []
  idle_log (looping r) signals = signals
  idle_log (quiet r d) signals = signals
  idle_log (busy r) signals = signals

module _ (c : Crates) (o : Sockets) where
  -- What a poll of the shutdown future logs, with the handlers installed.
  unfoldable pub poll_shutdown_log :
      (signal_first ctrl_c_first : Bool) → Option (Idle c) → Process c o → List ShutdownLine
  unfolding signal_log
  poll_shutdown_log signal_first ctrl_c_first none p =
      signal_log ctrl_c_first p.interrupted p.terminated
  poll_shutdown_log signal_first ctrl_c_first (some future) p =
      let signals = signal_log ctrl_c_first p.interrupted p.terminated in
      if is_panicked c future
      then []
      else if signal_first && is_signalled c o p
      then signals
      else idle_log c (poll_idle c p.idle_timeout p.now p.server.activity future) signals

signalled_lines :
    (first i t : Bool)
    → shutdown_signal i t ≡ true
    → ((i ≡ true) × (signal_log first i t ≡ sigint ∷ []))
      ⊎ ((t ≡ true) × (signal_log first i t ≡ sigterm ∷ []))
unfolding shutdown_signal signal_log
signalled_lines true true t h = inl (refl, refl)
signalled_lines true false true h = inr (refl, refl)
signalled_lines true false false h = absurd (cc)
signalled_lines false i true h = inr (refl, refl)
signalled_lines false true false h = inl (refl, refl)
signalled_lines false false false h = absurd (cc)

unsignalled_lines : (first i t : Bool) → shutdown_signal i t ≡ false → signal_log first i t ≡ []
unfolding shutdown_signal signal_log
unsignalled_lines first true t h = absurd (cc)
unsignalled_lines first false true h = absurd (cc)
unsignalled_lines true false false h = refl
unsignalled_lines false false false h = refl

module _ (c : Crates) (o : Sockets) (mutex : MutexLaws c) (watch : WatchLaws c) where
  -- What a poll of the shutdown future does and logs, and why.
  pub data Reason (p : Process c o) (stopping : Bool) (lines : List ShutdownLine) : Type 0 where
    serves_on : is_signalled c o p ≡ false → stopping ≡ false → lines ≡ [] → Reason p stopping lines
    by_sigint :
        p.interrupted ≡ true → stopping ≡ true → lines ≡ sigint ∷ [] → Reason p stopping lines
    by_sigterm :
        p.terminated ≡ true → stopping ≡ true → lines ≡ sigterm ∷ [] → Reason p stopping lines
    by_idle :
        total (active c) p.server.tasks ≡ 0
        → mutex.locked p.server.app.import_lock ≡ false
        → p.since + p.idle_timeout ≤ p.now
        → stopping ≡ true
        → lines ≡ idle_timeout ∷ []
        → Reason p stopping lines

  signals-Reason :
      (first : Bool) (p : Process c o) (stopping : Bool)
      → stopping ≡ is_signalled c o p
      → Reason p stopping (signal_log first p.interrupted p.terminated)
  signals-Reason first p stopping same = elim (Bool-cases (is_signalled c o p)) [
    | inl signalled ↦ elim (signalled_lines first p.interrupted p.terminated signalled) [
      | inl (arrived, lines) ↦ by_sigint arrived (same ∙ signalled) lines
      | inr (arrived, lines) ↦ by_sigterm arrived (same ∙ signalled) lines
    ]
    | inr unsignalled ↦
        serves_on unsignalled (same ∙ unsignalled)
          (unsignalled_lines first p.interrupted p.terminated unsignalled)
  ]

  idle-Reason :
      (first : Bool) (p : Process c o) (next : Idle c)
      → Inv c mutex p.server
      → total (active c) p.server.tasks < usize_mod
      → Fits c o mutex watch p
      → Tracks c watch p.idle_timeout p.server.activity p.now p.since next
      → Reason p
          (stops_at c (is_signalled c o p) next)
          (idle_log c next (signal_log first p.interrupted p.terminated))
  idle-Reason first p (looping r) v few fits t = signals-Reason first p _ refl
  idle-Reason first p (quiet r d) v few fits t = signals-Reason first p _ refl
  idle-Reason first p (busy r) v few fits t = signals-Reason first p _ refl
  idle-Reason first p returned v few fits t =
      let ended : total (active c) p.server.tasks ≡ 0 = omega (arith, v.counted, t.none_active) in
      by_idle ended (ended-free c mutex watch p.server v ended) t.long_enough refl refl
  idle-Reason first p panicked v few fits t = absurd (omega arith)

  poll-Reason :
      (signal_first first : Bool) (idle : Option (Idle c)) (p : Process c o)
      → Inv c mutex p.server
      → total (active c) p.server.tasks < usize_mod
      → Fits c o mutex watch p
      → Follows c o mutex watch p idle
      → Reason p
          (poll_shutdown c o signal_first idle p).stopping
          (poll_shutdown_log c o signal_first first idle p)
  unfolding poll_shutdown poll_shutdown_log
  poll-Reason signal_first first none p v few fits follows = signals-Reason first p _ refl
  poll-Reason signal_first first (some f) p v few fits follows =
      rw (alive_lem c o mutex watch p f follows fits)
        (elim (Bool-cases (signal_first && is_signalled c o p)) [
          | inl signalled ↦ rw signalled (signals-Reason first p true (ground (arith)))
          | inr neither ↦
              rw neither
                (idle-Reason first p _ v few fits (next-Tracks c o mutex watch p f follows fits))
        ])

  -- A shutdown is logged by one line, which tells its reason. Whatever a process that `main`
  -- started, and that still serves, has been through: if its signal handlers are installed, fewer
  -- than 2 ^ 64 requests are active, and the clock can represent the time plus the idle timeout,
  -- then a poll of its shutdown future, in whichever order the two `select!`s go, either logs
  -- nothing, has found no signal, and lets the process serve on; or it stops the process, and logs
  -- SIGINT, which has arrived, or SIGTERM, which has arrived, or the idle timeout, and then no
  -- request is active, the import lock is free, and no request has begun or ended for that long.
  pub stop_is_logged :
      (log_opens : Bool) (local_addr : o.Listener → Result o.Error (Unit {0})) (now : ℕ)
      (p : Process c o) (events : List (Event c o)) (signal_first ctrl_c_first : Bool)
      → main c o log_opens local_addr now ≡ ok p
      → installs_handlers c o ≡ true
      → let q = run_events c o p events in
        q.stopping ≡ false
        → total (active c) q.server.tasks < usize_mod
        → q.now + q.idle_timeout < instant_limit
        → Reason q
            (run_event c o q (wakes signal_first)).stopping
            (poll_shutdown_log c o signal_first ctrl_c_first q.idle q)
  stop_is_logged log_opens local_addr now p events signal_first ctrl_c_first starts installs serves
        few fits =
      let q : Process c o = run_events c o p events in
      let v : Runs c o mutex watch q =
        run-Runs c o mutex watch now p events installs
          (main-Started c o log_opens local_addr now p starts) in
      elim v.follows [
        | inl stops ↦ absurd (cc (sym serves ∙ stops))
        | inr follows ↦
            rw (wakes-installed c o mutex watch signal_first q installs)
              (poll-Reason signal_first ctrl_c_first q.idle q v.valid few fits follows)
      ]
