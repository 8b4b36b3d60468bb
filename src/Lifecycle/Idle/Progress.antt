-- ===== src/Lifecycle/Idle/Progress.antt =====
-- A poll of the idle future comes to a halt, and the future returns in time.
use xoa_proxy.Prelude.{
  ℕ, zero, suc, ◌+◌, ◌≤◌, ◌<◌, ◌≡◌, refl, sym, ◌∙◌, ◌⊎◌, inl, inr, true, false, Bool-cases,
  Option-cases, arith, leb, ◌==◌, le→leb,
}
use xoa_proxy.Crates.{Crates}
use xoa_proxy.Crates.Laws.{WatchLaws}
use xoa_proxy.Lifecycle.Idle.{
  instant_limit, add_duration, Idle, looping, quiet, busy, returned, panicked, turn, turns,
  poll_idle,
}
use xoa_proxy.Lifecycle.Idle.Laws.{Tracks, poll_idle-Tracks}

module _ (c : Crates) (laws : WatchLaws c) (timeout : ℕ) where
  -- The future waits for something that has not happened yet.
  abbrev pub IsSettled : c.Sender → ℕ → Idle c → Type 0
  IsSettled active now (looping changes) = ⊥
  IsSettled active now (quiet changes deadline) =
      (c.has_changed active changes ≡ false) × (now < deadline)
  IsSettled active now (busy changes) = c.has_changed active changes ≡ false
  IsSettled active now returned = Unit
  IsSettled active now panicked = Unit

  -- The state that follows a turn at the head of the loop, or at a deadline that has passed.
  marked_quiet-IsSettled :
      (active : c.Sender) (now d : ℕ) (r : c.Receiver)
      → IsSettled active now (turn c timeout now active (quiet (c.mark_seen active r) d))
  unfolding turn
  marked_quiet-IsSettled active now d r = elim (Bool-cases (leb d now)) [
    | inl due ↦ rw (laws.seen_marked active r, due) tt
    | inr early ↦ rw (laws.seen_marked active r, early) (laws.seen_marked active r, ground arith)
  ]

  pub looping-IsSettled :
      (active : c.Sender) (now : ℕ) (r : c.Receiver)
      → IsSettled active now (turns c 2 timeout now active (looping r))
  unfolding turns turn
  looping-IsSettled active now r = elim (Bool-cases (c.borrow active == 0)) [
    | inr some_active ↦
        rw (some_active, turn) (rw (laws.seen_marked active r, turn) (laws.seen_marked active r))
    | inl empty ↦ elim (Option-cases (add_duration now timeout)) [
      | inl beyond ↦ rw (empty, beyond, turn) tt
      | inr (d, fits) ↦ rw (empty, fits, turn) (marked_quiet-IsSettled active now d r)
    ]
  ]

  pub turn_of_IsSettled :
      (active : c.Sender) (now : ℕ) (s : Idle c)
      → IsSettled active now s
      → turn c timeout now active s ≡ s
  unfolding turn
  turn_of_IsSettled active now (looping r) h = elim h [ ]
  turn_of_IsSettled active now (quiet r d) (same, early) = rw same (ground arith)
  turn_of_IsSettled active now (busy r) same = rw same
  turn_of_IsSettled active now returned h = refl
  turn_of_IsSettled active now panicked h = refl

  keeps-IsSettled :
      (n : ℕ) (active : c.Sender) (now : ℕ) (s : Idle c)
      → IsSettled active now s
      → IsSettled active now (turns c n timeout now active s)
  unfolding turns
  keeps-IsSettled zero active now s h = h
  keeps-IsSettled (suc n) active now s h =
      keeps-IsSettled n active now _ (rw (turn_of_IsSettled active now s h) h)

  pub turns-add :
      (n : ℕ) (active : c.Sender) (now : ℕ) (s : Idle c)
      → turns c (suc n) timeout now active s
        ≡ turn c timeout now active (turns c n timeout now active s)
  unfolding turns
  turns-add zero active now s = refl
  turns-add (suc n) active now s = turns-add n active now (turn c timeout now active s)

  pub quiet_seen-IsSettled :
      (active : c.Sender) (now d : ℕ) (r : c.Receiver)
      → c.has_changed active r ≡ false
      → IsSettled active now (turn c timeout now active (quiet r d))
  unfolding turn
  quiet_seen-IsSettled active now d r same = elim (Bool-cases (leb d now)) [
    | inl due ↦ rw (same, due) tt
    | inr early ↦ rw (same, early) (same, ground arith)
  ]

  -- A change sends a waiting future to the head of the loop.
  pub turn_of_changed :
      (active : c.Sender) (now : ℕ) (s : Idle c) (r : c.Receiver)
      → ((d : ℕ) × (s ≡ quiet r d)) ⊎ (s ≡ busy r)
      → c.has_changed active r ≡ true
      → turn c timeout now active s ≡ looping (c.mark_seen active r)
  unfolding turn
  turn_of_changed active now s r (inl (d, e)) changed = rw e (rw changed)
  turn_of_changed active now s r (inr e) changed = rw e (rw changed)

  poll-IsSettled :
      (active : c.Sender) (now : ℕ) (s : Idle c)
      → IsSettled active now (poll_idle c timeout now active s)
  unfolding poll_idle turns
  poll-IsSettled active now (looping r) =
      let h = looping-IsSettled active now r in
      rw (turns-add 2 active now (looping r)) (rw (turn_of_IsSettled active now _ h) h)
  poll-IsSettled active now (quiet r d) = elim (Bool-cases (c.has_changed active r)) [
    | inl changed ↦
        rw (turn_of_changed active now (quiet r d) r (inl (d, refl)) changed)
          (looping-IsSettled active now (c.mark_seen active r))
    | inr same ↦ keeps-IsSettled 2 active now _ (quiet_seen-IsSettled active now d r same)
  ]
  poll-IsSettled active now (busy r) = elim (Bool-cases (c.has_changed active r)) [
    | inl changed ↦
        rw (turn_of_changed active now (busy r) r (inr refl) changed)
          (looping-IsSettled active now (c.mark_seen active r))
    | inr same ↦ keeps-IsSettled 3 active now (busy r) same
  ]
  poll-IsSettled active now returned = keeps-IsSettled 3 active now returned tt
  poll-IsSettled active now panicked = keeps-IsSettled 3 active now panicked tt

  -- Three turns are enough for a poll: afterwards the future has returned or panicked, or it waits
  -- for a change that has not happened, or for that and for a deadline that lies ahead; and another
  -- turn would change nothing.
  pub poll_idle-IsSettled :
      (active : c.Sender) (now : ℕ) (s : Idle c)
      → IsSettled active now (poll_idle c timeout now active s)
        × (turn c timeout now active (poll_idle c timeout now active s)
            ≡ poll_idle c timeout now active s)
  unfolding poll_idle turns
  poll_idle-IsSettled active now s =
      let h : IsSettled active now (poll_idle c timeout now active s) =
        poll-IsSettled active now s in
      (h, turn_of_IsSettled active now _ h)

  poll_of_returned :
      (active : c.Sender) (now : ℕ) → poll_idle c timeout now active returned ≡ returned
  unfolding poll_idle turns turn
  poll_of_returned active now = refl

  poll_of_due :
      (active : c.Sender) (now d : ℕ) (r : c.Receiver)
      → c.has_changed active r ≡ false
      → d ≤ now
      → poll_idle c timeout now active (quiet r d) ≡ returned
  unfolding poll_idle turns turn
  poll_of_due active now d r same due = rw (same, le→leb d now due)

  -- A future that follows its channel, polled while no request is active, returns when it is polled a
  -- timeout later, if no request has begun or ended in between and the sum of the time and the
  -- timeout is an `Instant`.
  pub poll_idle_returns :
      (active : c.Sender) (now since later : ℕ) (s : Idle c)
      → Tracks c laws timeout active now since s
      → c.borrow active ≡ 0
      → now + timeout < instant_limit
      → now + timeout ≤ later
      → poll_idle c timeout later active (poll_idle c timeout now active s) ≡ returned
  poll_idle_returns active now since later s t empty fits long =
      returns (poll_idle c timeout now active s)
        (poll_idle-Tracks c laws timeout active now since s t) (poll_idle-IsSettled active now s).0
    where
      returns :
          (p : Idle c)
          → Tracks c laws timeout active now since p
          → IsSettled active now p
          → poll_idle c timeout later active p ≡ returned
      returns (quiet r d) (_, _, bound, _) (same, _) =
          poll_of_due active later d r same (omega arith)
      returns (busy r) (_, _, inl changed) same = cc (sym changed ∙ same)
      returns (busy r) (_, _, inr some_active) same = absurd (some_active empty)
      returns returned _ _ = poll_of_returned active later
      returns panicked beyond _ = absurd (omega arith)
      returns (looping r) _ h = elim h [ ]
