-- ===== src/Process/Polls.antt =====
-- A few polls of the shutdown future, one after the other.
use xoa_proxy.Prelude.{
  ℕ, ◌+◌, ◌≤◌, ◌<◌, ◌≡◌, refl, sym, ◌∙◌, ◌⊎◌, inl, inr, Bool, true, false, ◌&&◌, Bool-cases, Option,
  none, some, List, [], ◌∷◌, arith, if◌then◌else◌,
}
use xoa_proxy.Crates.{Crates}
use xoa_proxy.Crates.Laws.{MutexLaws, WatchLaws}
use xoa_proxy.Lifecycle.Listener.{Sockets}
use xoa_proxy.Lifecycle.Idle.{
  instant_limit, Idle, looping, quiet, busy, returned, panicked, poll_idle,
}
use xoa_proxy.Lifecycle.Idle.Laws.{Tracks, poll_idle-Tracks}
use xoa_proxy.Lifecycle.Idle.Progress.{poll_idle_returns}
use xoa_proxy.Process.{
  installs_handlers, Process, Event, waits, wakes, is_signalled, is_panicked, stops_at, polled,
  poll_shutdown, run_event, run_events,
}
use xoa_proxy.Process.Runs.{Follows}
use xoa_proxy.Process.Wakes.{running_not_panicked}

module _ (c : Crates) (o : Sockets) where
  pub if_stops :
      (b : Bool) (p q : Process c o)
      → (b ≡ true → p.stopping ≡ true)
      → (b ≡ false → q.stopping ≡ true)
      → (if b then p else q).stopping ≡ true
  if_stops true p q h k = h refl
  if_stops false p q h k = k refl

  pub if_goes_on :
      (b : Bool) (p q : Process c o) (events : List (Event c o))
      → (b ≡ true → (run_events c o p events).stopping ≡ true)
      → (b ≡ false → (run_events c o q events).stopping ≡ true)
      → (run_events c o (if b then p else q) events).stopping ≡ true
  if_goes_on true p q events h k = h refl
  if_goes_on false p q events h k = k refl

  pub stays_stopped :
      (p : Process c o) (events : List (Event c o))
      → p.stopping ≡ true
      → (run_events c o p events).stopping ≡ true
  unfolding run_events
  stays_stopped p [] h = h
  stays_stopped p (e ∷ rest) h =
      if_goes_on p.stopping p (run_event c o p e) rest (λ _. stays_stopped p rest h)
        (λ goes_on. absurd (cc (sym goes_on ∙ h)))

  -- A poll of a shutdown future that has not panicked ends it by the signal, or polls the idle future.
  poll_shutdown-cases :
      (signal_first : Bool) (f : Idle c) (p : Process c o)
      → is_panicked c f ≡ false
      → ((poll_shutdown c o signal_first (some f) p).stopping ≡ true)
        ⊎ (poll_shutdown c o signal_first (some f) p
            ≡ polled c o p (poll_idle c p.idle_timeout p.now p.server.activity f))
  unfolding poll_shutdown
  poll_shutdown-cases signal_first f p alive =
      elim (Bool-cases (signal_first && is_signalled c o p)) [
        | inl signalled ↦ inl (rw (alive, signalled) refl)
        | inr neither ↦ inr (rw (alive, neither) refl)
      ]

  module _ (mutex : MutexLaws c) (watch : WatchLaws c) where
    -- The clock can represent the time plus the timeout.
    abbrev pub Fits : Process c o → Type 0
    Fits p = p.now + p.idle_timeout < instant_limit

    -- The future that a process polls has not panicked.
    pub alive_lem :
        (p : Process c o) (f : Idle c)
        → Follows c o mutex watch p (some f)
        → Fits p
        → is_panicked c f ≡ false
    alive_lem p f (inl (running, t)) fits =
        running_not_panicked c o mutex watch p.idle_timeout f running
    alive_lem p f (inr (e, beyond)) fits = absurd (omega arith)

    stops_at_of_signalled :
        (p : Process c o) (next : Idle c)
        → Tracks c watch p.idle_timeout p.server.activity p.now p.since next
        → Fits p
        → stops_at c true next ≡ true
    stops_at_of_signalled p (looping r) t fits = refl
    stops_at_of_signalled p (quiet r d) t fits = refl
    stops_at_of_signalled p (busy r) t fits = refl
    stops_at_of_signalled p returned t fits = refl
    stops_at_of_signalled p panicked t fits = absurd (omega arith)

    pub next-Tracks :
        (p : Process c o) (f : Idle c)
        → Follows c o mutex watch p (some f)
        → Fits p
        → Tracks c watch p.idle_timeout p.server.activity p.now p.since
            (poll_idle c p.idle_timeout p.now p.server.activity f)
    next-Tracks p f (inl (running, t)) fits =
        poll_idle-Tracks c watch p.idle_timeout p.server.activity p.now p.since f t
    next-Tracks p f (inr (e, beyond)) fits = absurd (omega arith)

    pub signalled_poll :
        (signal_first : Bool) (idle : Option (Idle c)) (p : Process c o)
        → Follows c o mutex watch p idle
        → Fits p
        → is_signalled c o p ≡ true
        → (poll_shutdown c o signal_first idle p).stopping ≡ true
    unfolding poll_shutdown
    signalled_poll signal_first none p h fits signalled = signalled
    signalled_poll signal_first (some f) p h fits signalled =
        elim (poll_shutdown-cases signal_first f p (alive_lem p f h fits)) [
          | inl stops ↦ stops
          | inr polls ↦
              rw polls (rw signalled (stops_at_of_signalled p _ (next-Tracks p f h fits) fits))
        ]

    tracked_alive :
        (p : Process c o) (next : Idle c)
        → Tracks c watch p.idle_timeout p.server.activity p.now p.since next
        → Fits p
        → is_panicked c next ≡ false
    tracked_alive p (looping r) t fits = refl
    tracked_alive p (quiet r d) t fits = refl
    tracked_alive p (busy r) t fits = refl
    tracked_alive p returned t fits = refl
    tracked_alive p panicked t fits = absurd (omega arith)

    -- The poll of an idle future that returns at this poll.
    last_poll :
        (signal_first : Bool) (f : Idle c) (p : Process c o)
        → is_panicked c f ≡ false
        → poll_idle c p.idle_timeout p.now p.server.activity f ≡ returned
        → (poll_shutdown c o signal_first (some f) p).stopping ≡ true
    last_poll signal_first f p alive returns = elim (poll_shutdown-cases signal_first f p alive) [
      | inl stops ↦ stops
      | inr polls ↦ rw polls (rw returns refl)
    ]

    -- With the handlers installed, an event `wakes` is a poll.
    pub wakes-installed :
        (signal_first : Bool) (p : Process c o)
        → installs_handlers c o ≡ true
        → run_event c o p (wakes signal_first) ≡ poll_shutdown c o signal_first p.idle p
    unfolding run_event
    wakes-installed signal_first p installs = rw installs refl

    -- The time passes after the first poll, and the second poll finds it passed.
    polled_stops :
        (second : Bool) (d : ℕ) (next : Idle c) (q : Process c o)
        → installs_handlers c o ≡ true
        → is_panicked c next ≡ false
        → poll_idle c q.idle_timeout (q.now + d) q.server.activity next ≡ returned
        → (run_events c o (polled c o q next) (waits d ∷ wakes second ∷ [])).stopping ≡ true
    unfolding run_events run_event
    polled_stops second d next q installs alive returns =
        let p : Process c o = polled c o q next in
        let later : Process c o = record p { now = q.now + d } in
        if_goes_on p.stopping p later (wakes second ∷ [])
          (λ stops. stays_stopped p (wakes second ∷ []) stops)
          (λ _.
            if_stops later.stopping later (run_event c o later (wakes second)) (λ stops. stops)
              (λ _. rw installs (last_poll second next later alive returns)))

    pub two_polls :
        (first second : Bool) (d : ℕ) (f : Idle c) (q : Process c o)
        → installs_handlers c o ≡ true
        → Follows c o mutex watch q (some f)
        → c.borrow q.server.activity ≡ 0
        → Fits q
        → q.idle_timeout ≤ d
        → (run_events c o
            (poll_shutdown c o first (some f) q)
            (waits d ∷ wakes second ∷ [])).stopping
          ≡ true
    two_polls first second d f q installs (inr (e, beyond)) empty fits long = absurd (omega arith)
    two_polls first second d f q installs (inl (running, t)) empty fits long =
        elim (poll_shutdown-cases first f q (alive_lem q f (inl (running, t)) fits)) [
          | inl stops ↦ stays_stopped _ (waits d ∷ wakes second ∷ []) stops
          | inr polls ↦ rw polls (
              polled_stops second d _ q installs
                (tracked_alive q _ (next-Tracks q f (inl (running, t)) fits) fits)
                (poll_idle_returns c watch q.idle_timeout q.server.activity q.now q.since
                  (q.now + d) f t empty fits (omega arith)))
        ]
