-- ===== src/Process/Ending.antt =====
-- That a process stops: on a signal, and when it has been idle.
use xoa_proxy.Prelude.{
  ℕ, ◌+◌, ◌≤◌, ◌<◌, ◌≡◌, refl, sym, ◌∙◌, ◌≢◌, inl, inr, Bool, true, Option, none, some, List, [],
  ◌∷◌,
}
use xoa_proxy.Rust.Result.{Result, ok}
use xoa_proxy.Crates.{Crates}
use xoa_proxy.Crates.Laws.{MutexLaws, WatchLaws}
use xoa_proxy.Lifecycle.Listener.{Sockets}
use xoa_proxy.Lifecycle.Idle.{instant_limit, Idle}
use xoa_proxy.Server.Count.{total}
use xoa_proxy.Server.Invariant.{active}
use xoa_proxy.Process.{
  installs_handlers, Process, Event, waits, wakes, is_signalled, poll_shutdown, run_event,
  run_events, main,
}
use xoa_proxy.Process.Runs.{Follows, Runs}
use xoa_proxy.Lifecycle.Listener.Laws.{IsStandalone}
use xoa_proxy.Process.Started.{main-Started}
use xoa_proxy.Process.Activation.{events_HasIdle, activated_HasIdle}
use xoa_proxy.Process.Stop.{run-Runs}
use xoa_proxy.Process.Polls.{
  Fits, if_stops, if_goes_on, stays_stopped, signalled_poll, two_polls, wakes-installed,
}

module _ (c : Crates) (o : Sockets) (mutex : MutexLaws c) (watch : WatchLaws c) where
  -- A process that `main` started stops as soon as its shutdown future is polled after a signal,
  -- whatever it is serving, whichever branch of the `select!` is polled first, and whether or not
  -- its socket was activated, if the signal handlers are installed and the clock can represent the
  -- time plus the idle timeout.
  signalled_stop :
      (log_opens : Bool) (local_addr : o.Listener → Result o.Error (Unit {0})) (now : ℕ)
      (p : Process c o) (events : List (Event c o)) (signal_first : Bool)
      → main c o log_opens local_addr now ≡ ok p
      → installs_handlers c o ≡ true
      → (run_events c o p events).now + (run_events c o p events).idle_timeout < instant_limit
      → is_signalled c o (run_events c o p events) ≡ true
      → (run_events c o (run_events c o p events) (wakes signal_first ∷ [])).stopping ≡ true
  unfolding run_events
  signalled_stop log_opens local_addr now p events signal_first starts installs fits signalled =
      let q : Process c o = run_events c o p events in
      let v : Runs c o mutex watch q =
        run-Runs c o mutex watch now p events installs
          (main-Started c o log_opens local_addr now p starts) in
      if_stops c o q.stopping q (run_event c o q (wakes signal_first)) (λ stops. stops)
        (λ goes_on. elim v.follows [
          | inl stops ↦ absurd (cc (sym goes_on ∙ stops))
          | inr follows ↦
              rw (wakes-installed c o mutex watch signal_first q installs)
                (signalled_poll c o mutex watch signal_first q.idle q follows fits signalled)
        ])

  -- A process that `main` started on a socket that systemd passed on stops without a signal: if no
  -- request is active when its shutdown future is polled, and none arrives until it is polled
  -- again, the idle timeout or more later, then it has stopped by then, whatever it served before,
  -- if the signal handlers are installed and, at the first of these polls, the clock can represent
  -- the time plus the idle timeout.
  pub idle_stop :
      (log_opens : Bool) (local_addr : o.Listener → Result o.Error (Unit {0})) (now : ℕ)
      (p : Process c o) (events : List (Event c o)) (first second : Bool) (d : ℕ)
      → main c o log_opens local_addr now ≡ ok p
      → installs_handlers c o ≡ true
      → ¬ IsStandalone o
      → total (active c) (run_events c o p events).server.tasks ≡ 0
      → (run_events c o p events).now + (run_events c o p events).idle_timeout < instant_limit
      → (run_events c o p events).idle_timeout ≤ d
      → (run_events c o
          (run_events c o p events)
          (wakes first ∷ waits d ∷ wakes second ∷ [])).stopping
        ≡ true
  unfolding run_events
  idle_stop log_opens local_addr now p events first second d starts installs inherited ended fits
        long =
      let q : Process c o = run_events c o p events in
      let s = main-Started c o log_opens local_addr now p starts in
      let v : Runs c o mutex watch q = run-Runs c o mutex watch now p events installs s in
      let activated = events_HasIdle c o p events (activated_HasIdle c o now p s inherited) in
      let rest : List (Event c o) = waits d ∷ wakes second ∷ [] in
      if_goes_on c o q.stopping q (run_event c o q (wakes first)) rest
        (λ stops. stays_stopped c o q rest stops)
        (λ goes_on. elim v.follows [
          | inl stops ↦ absurd (cc (sym goes_on ∙ stops))
          | inr follows ↦
              rw (wakes-installed c o mutex watch first q installs) (
                idle_polls q.idle q follows activated (v.valid.counted ∙ (rw ended refl)) fits long)
        ])
    where
      idle_polls :
          (idle : Option (Idle c)) (q : Process c o)
          → Follows c o mutex watch q idle
          → (idle ≢ none)
          → c.borrow q.server.activity ≡ 0
          → Fits c o mutex watch q
          → q.idle_timeout ≤ d
          → (run_events c o (poll_shutdown c o first idle q) (waits d ∷ wakes second ∷ [])).stopping
            ≡ true
      idle_polls none q follows some_idle empty fits long = absurd (some_idle refl)
      idle_polls (some f) q follows some_idle empty fits long =
          two_polls c o mutex watch first second d f q installs follows empty fits long
