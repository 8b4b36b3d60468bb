-- ===== src/Process/Shutdown.antt =====
-- A process until it stops serving.
use xoa_proxy.Prelude.{
  ℕ, ◌≤◌, ◌≡◌, refl, ◌⊎◌, inl, inr, Bool, true, false, Option, none, some, List, [], ◌∷◌, arith,
  if◌then◌else◌,
}
use xoa_proxy.Crates.{Crates}
use xoa_proxy.Crates.Laws.{MutexLaws, WatchLaws}
use xoa_proxy.Lifecycle.Listener.{Sockets}
use xoa_proxy.Lifecycle.Idle.{Idle}
use xoa_proxy.Lifecycle.Idle.Laws.{Tracks, IsRunning, modify-Tracks, wait-Tracks}
use xoa_proxy.Server.{Action, step}
use xoa_proxy.Server.Steps.{step-Inv}
use xoa_proxy.Process.{
  installs_handlers, Process, Event, serves, waits, interrupts, terminates, wakes, touches,
  run_event, run_events,
}
use xoa_proxy.Process.Touching.{step-activity}
use xoa_proxy.Process.Runs.{Follows, Runs}
use xoa_proxy.Process.Wakes.{wake-Runs}

module _ (c : Crates) (o : Sockets) (mutex : MutexLaws c) (watch : WatchLaws c) where
  served-Tracks :
      (p : Process c o) (a : Action c) (f : Idle c)
      → IsRunning c watch p.idle_timeout f
      → Tracks c watch p.idle_timeout p.server.activity p.now p.since f
      → Tracks c watch p.idle_timeout
          (step c p.server a).activity
          p.now
          (if touches c p.server a then p.now else p.since)
          f
  served-Tracks p a f running t = elim (step-activity c p.server a) [
    | inl (untouched, same) ↦ rw (untouched, same) t
    | inr (touched, (g, written)) ↦
        rw (touched, written)
          (modify-Tracks c watch p.idle_timeout g p.server.activity p.now p.since f running t)
  ]

  served_ordered : (b : Bool) (since now : ℕ) → since ≤ now → (if b then now else since) ≤ now
  served_ordered true since now h = omega arith
  served_ordered false since now h = h

  serve-Runs :
      (p : Process c o) (a : Action c)
      → Runs c o mutex watch p
      → p.stopping ≡ false
      → Runs c o mutex watch (run_event c o p (serves a))
  unfolding run_event
  serve-Runs p a v runs = record {
    valid = step-Inv c mutex watch p.server a v.valid;
    ordered = served_ordered (touches c p.server a) p.since p.now v.ordered;
    follows = follows_of p.idle v.follows;
    justified = inl runs;
  }
    where
      follows_of :
          (idle : Option (Idle c))
          → (p.stopping ≡ true) ⊎ Follows c o mutex watch p idle
          → (p.stopping ≡ true) ⊎ Follows c o mutex watch (run_event c o p (serves a)) idle
      follows_of idle (inl stops) = inl stops
      follows_of none (inr h) = inr tt
      follows_of (some f) (inr (inl (running, t))) =
          inr (inl (running, served-Tracks p a f running t))
      follows_of (some f) (inr (inr e)) = inr (inr e)

  wait-Runs :
      (p : Process c o) (d : ℕ)
      → Runs c o mutex watch p
      → p.stopping ≡ false
      → Runs c o mutex watch (run_event c o p (waits d))
  unfolding run_event
  wait-Runs p d v runs = record {
    valid = v.valid;
    ordered = omega (arith, v.ordered);
    follows = follows_of p.idle v.follows;
    justified = inl runs;
  }
    where
      follows_of :
          (idle : Option (Idle c))
          → (p.stopping ≡ true) ⊎ Follows c o mutex watch p idle
          → (p.stopping ≡ true) ⊎ Follows c o mutex watch (run_event c o p (waits d)) idle
      follows_of idle (inl stops) = inl stops
      follows_of none (inr h) = inr tt
      follows_of (some f) (inr (inl (running, t))) = inr (
          inl (
            running,
            wait-Tracks c watch p.idle_timeout p.server.activity p.now p.since d f running t,
          ))
      follows_of (some f) (inr (inr (e, beyond))) = inr (inr (e, omega arith))

  interrupts-Runs :
      (p : Process c o)
      → Runs c o mutex watch p
      → p.stopping ≡ false
      → Runs c o mutex watch (run_event c o p interrupts)
  unfolding run_event
  interrupts-Runs p v runs = record {
    valid = v.valid;
    ordered = v.ordered;
    follows = v.follows;
    justified = inl runs;
  }

  terminates-Runs :
      (p : Process c o)
      → Runs c o mutex watch p
      → p.stopping ≡ false
      → Runs c o mutex watch (run_event c o p terminates)
  unfolding run_event
  terminates-Runs p v runs = record {
    valid = v.valid;
    ordered = v.ordered;
    follows = v.follows;
    justified = inl runs;
  }

  event-Runs :
      (p : Process c o) (e : Event c o)
      → installs_handlers c o ≡ true
      → Runs c o mutex watch p
      → p.stopping ≡ false
      → Runs c o mutex watch (run_event c o p e)
  event-Runs p (serves a) installs v runs = serve-Runs p a v runs
  event-Runs p (waits d) installs v runs = wait-Runs p d v runs
  event-Runs p interrupts installs v runs = interrupts-Runs p v runs
  event-Runs p terminates installs v runs = terminates-Runs p v runs
  event-Runs p (wakes signal_first) installs v runs =
      wake-Runs c o mutex watch signal_first p installs v runs

  pub events-Runs :
      (p : Process c o) (events : List (Event c o))
      → installs_handlers c o ≡ true
      → Runs c o mutex watch p
      → Runs c o mutex watch (run_events c o p events)
  unfolding run_events
  events-Runs p [] installs v = v
  events-Runs p (e ∷ rest) installs v =
      events-Runs (if p.stopping then p else run_event c o p e) rest installs
        (stay_or_run p.stopping refl)
    where
      stay_or_run :
          (b : Bool) → p.stopping ≡ b → Runs c o mutex watch (if b then p else run_event c o p e)
      stay_or_run true h = v
      stay_or_run false h = event-Runs p e installs v h
