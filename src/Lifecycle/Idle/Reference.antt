-- ===== src/Lifecycle/Idle/Reference.antt =====
-- The idle future is the timer of Lifecycle.Idle.Timer.
use xoa_proxy.Prelude.{
  ℕ, zero, suc, ◌+◌, ◌≡◌, refl, ap, ◌∙◌, inl, inr, Bool, true, false, Bool-cases, List, [], ◌∷◌,
  ltb, leb, ◌==◌,
}
use xoa_proxy.Crates.{Crates}
use xoa_proxy.Crates.Laws.{WatchLaws}
use xoa_proxy.Lifecycle.Idle.{
  instant_limit, add_duration, Idle, looping, quiet, busy, returned, panicked, start_idle, turn,
  turns, poll_idle,
}
use xoa_proxy.Lifecycle.Idle.Timer.{
  Timer, fresh, armed, waiting, expired, broken, expire, rearm, tick, Moment, written, is_written,
  run_timer,
}
use xoa_proxy.Lifecycle.Idle.Progress.{
  turn_of_changed, turn_of_IsSettled, turns-add, looping-IsSettled, quiet_seen-IsSettled, IsSettled,
}

module _ (c : Crates) where
  abbrev pub modified : List (ℕ → ℕ) → c.Sender → c.Sender
  modified [] active = active
  modified (f ∷ fs) active = modified fs (c.send_modify f active)

  abbrev pub run_idle : ℕ → List Moment → c.Sender → Idle c → Idle c
  run_idle timeout [] active s = s
  run_idle timeout ((fs, now) ∷ rest) active s =
      run_idle timeout rest (modified fs active) (poll_idle c timeout now (modified fs active) s)

  abbrev pub timer : Idle c → Timer
  timer (looping changes) = fresh
  timer (quiet changes deadline) = armed deadline
  timer (busy changes) = waiting
  timer returned = expired
  timer panicked = broken

  module _ (laws : WatchLaws c) where
    -- The future's receiver listens to the channel, and has seen its value or not.
    abbrev Sees : c.Sender → Bool → Idle c → Type 0
    Sees active changed (looping r) = laws.Connected active r
    Sees active changed (quiet r d) = laws.Connected active r × (c.has_changed active r ≡ changed)
    Sees active changed (busy r) = laws.Connected active r × (c.has_changed active r ≡ changed)
    Sees active changed returned = Unit
    Sees active changed panicked = Unit

    modified-connected :
        (fs : List (ℕ → ℕ)) (active : c.Sender) (r : c.Receiver)
        → laws.Connected active r
        → laws.Connected (modified fs active) r
    modified-connected [] active r h = h
    modified-connected (f ∷ fs) active r h =
        modified-connected fs (c.send_modify f active) r (laws.connected_modified f active r h)

    modified-changed :
        (f : ℕ → ℕ) (fs : List (ℕ → ℕ)) (active : c.Sender) (r : c.Receiver)
        → laws.Connected active r
        → c.has_changed (modified (f ∷ fs) active) r ≡ true
    modified-changed f [] active r h = laws.modify_notifies f active r h
    modified-changed f (g ∷ fs) active r h =
        modified-changed g fs (c.send_modify f active) r (laws.connected_modified f active r h)

    modified-written :
        (fs : List (ℕ → ℕ)) (active : c.Sender)
        → c.borrow (modified fs active) ≡ written fs (c.borrow active)
    modified-written [] active = refl
    modified-written (f ∷ fs) active =
        modified-written fs (c.send_modify f active) ∙ ap (written fs) (laws.borrow_modify f active)

    seen_of_writes :
        (fs : List (ℕ → ℕ)) (active : c.Sender) (r : c.Receiver)
        → laws.Connected active r
        → c.has_changed active r ≡ false
        → c.has_changed (modified fs active) r ≡ is_written fs
    seen_of_writes [] active r h same = same
    seen_of_writes (f ∷ fs) active r h same = modified-changed f fs active r h

    modified-Sees :
        (fs : List (ℕ → ℕ)) (active : c.Sender) (s : Idle c)
        → Sees active false s
        → Sees (modified fs active) (is_written fs) s
    modified-Sees fs active (looping r) h = modified-connected fs active r h
    modified-Sees fs active (quiet r d) (h, same) =
        (modified-connected fs active r h, seen_of_writes fs active r h same)
    modified-Sees fs active (busy r) (h, same) =
        (modified-connected fs active r h, seen_of_writes fs active r h same)
    modified-Sees fs active returned h = tt
    modified-Sees fs active panicked h = tt

    module _ (timeout : ℕ) (active : c.Sender) (now : ℕ) where
      -- The state is that of the timer `t`, and has seen the channel.
      abbrev Agrees : Idle c → Timer → Type 0
      Agrees s t = (timer s ≡ t) × Sees active false s

      expire-Agrees :
          (r : c.Receiver) (d : ℕ)
          → laws.Connected active r
          → c.has_changed active r ≡ false
          → Agrees (turn c timeout now active (quiet r d)) (expire now d)
      unfolding turn
      expire-Agrees r d h same = elim (Bool-cases (leb d now)) [
        | inl due ↦ rw (same, due) (refl, tt)
        | inr early ↦ rw (same, early) (refl, (h, same))
      ]

      looping-Agrees :
          (r : c.Receiver)
          → Agrees (turns c 2 timeout now active (looping r)) (rearm timeout now (c.borrow active))
      unfolding turns turn add_duration
      looping-Agrees r = elim (Bool-cases (c.borrow active == 0)) [
        | inr some_active ↦
            rw (some_active, turn)
              (rw (laws.seen_marked active r, turn)
                (refl, (laws.connected_marked active r, laws.seen_marked active r)))
        | inl empty ↦ elim (Bool-cases (ltb (now + timeout) instant_limit)) [
          | inr beyond ↦ rw (empty, beyond, turn) (refl, tt)
          | inl fits ↦
              rw (empty, fits, turn)
                (expire-Agrees (c.mark_seen active r) (now + timeout)
                  (laws.connected_marked active r) (laws.seen_marked active r))
        ]
      ]

      settled-turns :
          (n : ℕ) (s : Idle c)
          → IsSettled c laws timeout active now s
          → turns c n timeout now active s ≡ s
      unfolding turns
      settled-turns zero s h = refl
      settled-turns (suc n) s h =
          ap (turns c n timeout now active) (turn_of_IsSettled c laws timeout active now s h)
          ∙ settled-turns n s h

      poll-Agrees :
          (changed : Bool) (s : Idle c)
          → Sees active changed s
          → Agrees
              (poll_idle c timeout now active s)
              (tick timeout now (c.borrow active) changed (timer s))
      unfolding poll_idle turns
      poll-Agrees changed (looping r) h = rw (turns-add c laws timeout 2 active now (looping r)) (
          rw
            (turn_of_IsSettled c laws timeout active now _
              (looping-IsSettled c laws timeout active now r))
            (looping-Agrees r))
      poll-Agrees true (quiet r d) (h, new) =
          rw (turn_of_changed c laws timeout active now (quiet r d) r (inl (d, refl)) new)
            (looping-Agrees (c.mark_seen active r))
      poll-Agrees false (quiet r d) (h, same) =
          rw
            (settled-turns 2 (turn c timeout now active (quiet r d))
              (quiet_seen-IsSettled c laws timeout active now d r same))
            (expire-Agrees r d h same)
      poll-Agrees true (busy r) (h, new) =
          rw (turn_of_changed c laws timeout active now (busy r) r (inr refl) new)
            (looping-Agrees (c.mark_seen active r))
      poll-Agrees false (busy r) (h, same) = rw (settled-turns 3 (busy r) same) (refl, (h, same))
      poll-Agrees changed returned h = rw (settled-turns 3 returned tt) (refl, tt)
      poll-Agrees changed panicked h = rw (settled-turns 3 panicked tt) (refl, tt)

    run-Agrees :
        (timeout : ℕ) (moments : List Moment) (active : c.Sender) (s : Idle c)
        → Sees active false s
        → timer (run_idle timeout moments active s)
          ≡ run_timer timeout moments (c.borrow active) (timer s)
    run-Agrees timeout [] active s h = refl
    run-Agrees timeout ((fs, now) ∷ rest) active s h =
        let later = modified fs active in
        let (same, sees) =
          poll-Agrees timeout later now (is_written fs) s (modified-Sees fs active s h) in
        run-Agrees timeout rest later (poll_idle c timeout now later s) sees
        ∙ ap (run_timer timeout rest (c.borrow later)) same
        ∙ ap (λ n. run_timer timeout rest n (tick timeout now n (is_written fs) (timer s)))
            (modified-written fs active)

    -- The idle future is a timer. Whatever is written to the count of active requests, and whenever
    -- the future is polled, it stands where the timer stands: the first poll, and each poll after a
    -- write, begins a new window of the whole timeout if the count is 0, and waits for the next write
    -- if not; a poll without a write since the last one changes nothing before the window ends, and
    -- returns from then on; and a window whose end is no `Instant` breaks it.
    pub run_idle-run_timer :
        (timeout : ℕ) (moments : List Moment) (active : c.Sender)
        → timer (run_idle timeout moments active (start_idle c active))
          ≡ run_timer timeout moments (c.borrow active) fresh
    unfolding start_idle
    run_idle-run_timer timeout moments active =
        run-Agrees timeout moments active (start_idle c active) (laws.connected_subscribed active)
