-- ===== src/Process/Activation.antt =====
-- Whether a process has an idle future: just if systemd has passed the socket on.
use xoa_proxy.Config.{load}
use xoa_proxy.Rust.Text.{Text}
use xoa_proxy.Lifecycle.Listener.{bind_own, adopt}
use xoa_proxy.Lifecycle.Listener.Laws.{IsStandalone, standalone, activated, refused, listener-Start}
use xoa_proxy.Prelude.{
  ℕ, ◌≡◌, ◌≢◌, refl, sym, ◌∙◌, inl, inr, Bool, Bool-cases, true, false, ◌&&◌, Option, none, some,
  List, [], ◌∷◌, if◌then◌else◌,
}
use xoa_proxy.Rust.Result.{ok, Result-cases}
use xoa_proxy.Crates.{Crates}
use xoa_proxy.Lifecycle.Listener.{Sockets}
use xoa_proxy.Lifecycle.Idle.{Idle}
use xoa_proxy.Process.{
  installs_handlers, Process, Event, serves, waits, interrupts, terminates, wakes, is_signalled,
  is_panicked, run_event, run_events, assemble, poll_shutdown,
}
use xoa_proxy.Process.Started.{Started}

module _ (c : Crates) (o : Sockets) where
  -- Whether the idle future is there does not change.
  event-idle : (p : Process c o) (e : Event c o) → p.idle ≡ none → (run_event c o p e).idle ≡ none
  unfolding run_event
  event-idle p (serves a) h = h
  event-idle p (waits d) h = h
  event-idle p interrupts h = h
  event-idle p terminates h = h
  event-idle p (wakes signal_first) h = elim (Bool-cases (installs_handlers c o)) [
    | inl installed ↦ rw (installed, h, poll_shutdown) refl
    | inr failed ↦ rw failed h
  ]

  pub events-idle :
      (p : Process c o) (events : List (Event c o))
      → p.idle ≡ none
      → (run_events c o p events).idle ≡ none
  unfolding run_events
  events-idle p [] h = h
  events-idle p (e ∷ rest) h =
      events-idle (if p.stopping then p else run_event c o p e) rest (stay_or_run p.stopping)
    where
      stay_or_run : (b : Bool) → (if b then p else run_event c o p e).idle ≡ none
      stay_or_run true = h
      stay_or_run false = event-idle p e h

  -- A socket of the proxy's own is not an activated one.
  bind_own-activated :
      (bind : Text) (port : ℕ) {l : o.Listener} {activated : Bool}
      → bind_own o bind port ≡ ok (l, activated)
      → activated ≡ false
  unfolding bind_own
  bind_own-activated bind port h = elim (Result-cases (o.bind bind port)) [
    | inl (own, bound) ↦ cc (rw bound at h)
    | inr (e, failed) ↦ absurd (cc (rw failed at h))
  ]

  pub standalone-idle :
      (now : ℕ) (p : Process c o) → Started c o now p → IsStandalone o → p.idle ≡ none
  unfolding assemble
  standalone-idle now p s alone =
      let own : s.activated ≡ false = elim (listener-Start o (load o.env).bind (load o.env).port) [
        | standalone _ out _ ↦
            bind_own-activated (load o.env).bind (load o.env).port (sym out ∙ s.listens)
        | activated inherited _ _ _ ↦ absurd (inherited alone)
        | refused inherited _ _ ↦ absurd (inherited alone)
      ] in
      rw s.assembled (rw own refl)

  -- An idle future that is there stays there, if only as one that has returned or panicked.
  if_HasIdle :
      (b : Bool) (p q : Process c o)
      → p.idle ≢ none
      → q.idle ≢ none
      → (if b then p else q).idle ≢ none
  if_HasIdle true p q h k = h
  if_HasIdle false p q h k = k

  wake_HasIdle :
      (signal_first : Bool) (idle : Option (Idle c)) (p : Process c o)
      → idle ≢ none
      → p.idle ≢ none
      → (poll_shutdown c o signal_first idle p).idle ≢ none
  unfolding poll_shutdown
  wake_HasIdle signal_first none p some_idle h = absurd (some_idle refl)
  wake_HasIdle signal_first (some f) p some_idle h =
      if_HasIdle (is_panicked c f) p _ h
        (if_HasIdle (signal_first && is_signalled c o p) _ _ h (λ absent. cc absent))

  event_HasIdle :
      (p : Process c o) (e : Event c o) → p.idle ≢ none → (run_event c o p e).idle ≢ none
  unfolding run_event
  event_HasIdle p (serves a) h = h
  event_HasIdle p (waits d) h = h
  event_HasIdle p interrupts h = h
  event_HasIdle p terminates h = h
  event_HasIdle p (wakes signal_first) h =
      if_HasIdle (installs_handlers c o) _ _ (wake_HasIdle signal_first p.idle p h h) h

  pub events_HasIdle :
      (p : Process c o) (events : List (Event c o))
      → p.idle ≢ none
      → (run_events c o p events).idle ≢ none
  unfolding run_events
  events_HasIdle p [] h = h
  events_HasIdle p (e ∷ rest) h =
      events_HasIdle (if p.stopping then p else run_event c o p e) rest
        (if_HasIdle p.stopping p (run_event c o p e) h (event_HasIdle p e h))

  adopt-activated :
      (socket : o.StdListener) {l : o.Listener} {activated : Bool}
      → adopt o socket ≡ ok (l, activated)
      → activated ≡ true
  unfolding adopt
  adopt-activated socket h = elim (Result-cases (o.local_addr socket)) [
    | inr (e, failed) ↦ absurd (cc (rw failed at h))
    | inl (addr, e1) ↦ elim (Result-cases (o.set_nonblocking socket)) [
      | inr (e, failed) ↦ absurd (cc (rw (e1, failed) at h))
      | inl (ready, e2) ↦ elim (Result-cases (o.from_std ready)) [
        | inr (e, failed) ↦ absurd (cc (rw (e1, e2, failed) at h))
        | inl (listening, e3) ↦ cc (rw (e1, e2, e3) at h)
      ]
    ]
  ]

  pub activated_HasIdle :
      (now : ℕ) (p : Process c o) → Started c o now p → ¬ IsStandalone o → p.idle ≢ none
  unfolding assemble
  activated_HasIdle now p s inherited =
      let adopted : s.activated ≡ true =
        elim (listener-Start o (load o.env).bind (load o.env).port) [
          | standalone alone _ _ ↦ absurd (inherited alone)
          | activated _ _ out _ ↦ adopt-activated (o.from_raw_fd 3) (sym out ∙ s.listens)
          | refused _ _ out ↦ absurd (cc (sym out ∙ s.listens))
        ] in
      rw s.assembled (rw adopted (λ absent. cc absent))
