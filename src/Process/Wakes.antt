-- ===== src/Process/Wakes.antt =====
-- The polls of the shutdown future.
use xoa_proxy.Prelude.{
  ℕ, ◌≡◌, refl, sym, ◌∙◌, ◌⊎◌, inl, inr, Bool, true, false, ◌&&◌, Bool-cases, Option, none, some,
  arith,
}
use xoa_proxy.Crates.{Crates}
use xoa_proxy.Crates.Laws.{MutexLaws, WatchLaws}
use xoa_proxy.Lifecycle.Listener.{Sockets}
use xoa_proxy.Lifecycle.Idle.{Idle, looping, quiet, busy, returned, panicked}
use xoa_proxy.Lifecycle.Idle.Laws.{Tracks, IsRunning, poll_idle-Tracks}
use xoa_proxy.Process.{
  Process, installs_handlers, wakes, is_signalled, is_panicked, stops_at, polled, run_event,
  poll_shutdown,
}
use xoa_proxy.Process.Runs.{Follows, MayStop, Runs}

module _ (c : Crates) (o : Sockets) (mutex : MutexLaws c) (watch : WatchLaws c) where
  standalone_wake-Runs :
      (p : Process c o)
      → Runs c o mutex watch p
      → p.idle ≡ none
      → Runs c o mutex watch (record p { stopping = is_signalled c o p })
  standalone_wake-Runs p v none_idle = record {
    valid = v.valid;
    ordered = v.ordered;
    follows = inr (rw none_idle tt);
    justified = elim (Bool-cases (is_signalled c o p)) [
      | inl yes_sig ↦ inr (inl yes_sig)
      | inr no_sig ↦ inl no_sig
    ];
  }

  polled-Runs :
      (p : Process c o) (next : Idle c)
      → Runs c o mutex watch p
      → Tracks c watch p.idle_timeout p.server.activity p.now p.since next
      → Runs c o mutex watch (polled c o p next)
  polled-Runs p next v t = record {
    valid = v.valid;
    ordered = v.ordered;
    follows = follows_of next t;
    justified = justified_of next t;
  }
    where
      follows_of :
          (next : Idle c)
          → Tracks c watch p.idle_timeout p.server.activity p.now p.since next
          → (stops_at c (is_signalled c o p) next ≡ true)
            ⊎ Follows c o mutex watch (polled c o p next) (some next)
      follows_of (looping r) t = inr (inl (tt, t))
      follows_of (quiet r d) t = inr (inl (tt, t))
      follows_of (busy r) t = inr (inl (tt, t))
      follows_of returned t = inl refl
      follows_of panicked t = inr (inr (refl, t))

      by_signal :
          (next : Idle c)
          → (is_signalled c o p ≡ false) ⊎ MayStop c o mutex watch (polled c o p next)
      by_signal next = elim (Bool-cases (is_signalled c o p)) [
        | inl signalled ↦ inr (inl signalled)
        | inr unsignalled ↦ inl unsignalled
      ]

      justified_of :
          (next : Idle c)
          → Tracks c watch p.idle_timeout p.server.activity p.now p.since next
          → (stops_at c (is_signalled c o p) next ≡ false)
            ⊎ MayStop c o mutex watch (polled c o p next)
      justified_of (looping r) t = by_signal (looping r)
      justified_of (quiet r d) t = by_signal (quiet r d)
      justified_of (busy r) t = by_signal (busy r)
      justified_of returned t = inr (inr (λ absent. cc absent, inl t))
      justified_of panicked t = inr (inr (λ absent. cc absent, inr t))

  pub running_not_panicked :
      (timeout : ℕ) (f : Idle c) → IsRunning c watch timeout f → is_panicked c f ≡ false
  running_not_panicked timeout (looping r) h = refl
  running_not_panicked timeout (quiet r d) h = refl
  running_not_panicked timeout (busy r) h = refl
  running_not_panicked timeout returned h = elim h [ ]
  running_not_panicked timeout panicked h = elim h [ ]

  activated_wake-Runs :
      (signal_first : Bool) (p : Process c o) (f : Idle c)
      → Runs c o mutex watch p
      → Follows c o mutex watch p (some f)
      → Runs c o mutex watch (poll_shutdown c o signal_first (some f) p)
  unfolding poll_shutdown
  activated_wake-Runs signal_first p f v (inr (e, beyond)) = rw e v
  activated_wake-Runs signal_first p f v (inl (running, t)) =
      elim (Bool-cases (signal_first && is_signalled c o p)) [
        | inl signalled ↦
            rw (running_not_panicked p.idle_timeout f running, signalled)
              (record {
                valid = v.valid;
                ordered = v.ordered;
                follows = inl refl;
                justified = inr (inl (ground arith));
              })
        | inr neither ↦
            rw (running_not_panicked p.idle_timeout f running, neither)
              (polled-Runs p _ v
                (poll_idle-Tracks c watch p.idle_timeout p.server.activity p.now p.since f t))
      ]

  pub wake-Runs :
      (signal_first : Bool) (p : Process c o)
      → installs_handlers c o ≡ true
      → Runs c o mutex watch p
      → p.stopping ≡ false
      → Runs c o mutex watch (run_event c o p (wakes signal_first))
  unfolding run_event poll_shutdown
  wake-Runs signal_first p installs v runs = rw installs (wake_with p.idle refl)
    where
      wake_with :
          (idle : Option (Idle c))
          → p.idle ≡ idle
          → Runs c o mutex watch (poll_shutdown c o signal_first idle p)
      wake_with none e = standalone_wake-Runs p v e
      wake_with (some f) e = activated_wake-Runs signal_first p f v (follows_of (rw e at v.follows))
        where
          follows_of :
              (p.stopping ≡ true) ⊎ Follows c o mutex watch p (some f)
              → Follows c o mutex watch p (some f)
          follows_of (inl stops) = absurd (cc (sym runs ∙ stops))
          follows_of (inr h) = h
