-- ===== src/Lifecycle/Idle/Laws.antt =====
-- When the idle future returns: what it has established by then, and that it does return.
use xoa_proxy.Prelude.{
  ℕ, zero, suc, ◌+◌, ◌≤◌, ◌≡◌, ◌≢◌, ◌⊎◌, inl, inr, true, Bool-cases, arith, ltb, leb, ◌==◌,
}
use xoa_proxy.Crates.{Crates}
use xoa_proxy.Crates.Laws.{WatchLaws}
use xoa_proxy.Lifecycle.Idle.{
  instant_limit, add_duration, Idle, looping, quiet, busy, returned, panicked, start_idle, turn,
  turns, poll_idle,
}

module _ (c : Crates) (laws : WatchLaws c) (timeout : ℕ) where
  -- No request is active, and none has begun or ended for the whole timeout.
  pub record IsIdle (active : c.Sender) (now since : ℕ) : Type 0 where
    pub none_active : c.borrow active ≡ 0
    pub long_enough : since + timeout ≤ now

  -- The invariant of the future, for a channel that was last written at the time `since`.
  abbrev pub Tracks : c.Sender → ℕ → ℕ → Idle c → Type 0
  Tracks active now since (looping changes) = (since ≤ now) × laws.Connected active changes
  Tracks active now since (quiet changes deadline) =
      (since ≤ now)
      × laws.Connected active changes
      × (deadline ≤ now + timeout)
      × ((c.has_changed active changes ≡ true)
          ⊎ ((c.borrow active ≡ 0) × (since + timeout ≤ deadline)))
  Tracks active now since (busy changes) =
      (since ≤ now)
      × laws.Connected active changes
      × ((c.has_changed active changes ≡ true) ⊎ (c.borrow active ≢ 0))
  Tracks active now since returned = IsIdle active now since
  Tracks active now since panicked = instant_limit ≤ now + timeout

  pub start_idle-Tracks :
      (active : c.Sender) (now since : ℕ)
      → since ≤ now
      → Tracks active now since (start_idle c active)
  unfolding start_idle
  start_idle-Tracks active now since h = (h, laws.connected_subscribed active)

  -- A future that still runs.
  abbrev pub IsRunning : Idle c → Type 0
  IsRunning returned = ⊥
  IsRunning panicked = ⊥
  IsRunning _ = Unit

  pub modify-Tracks :
      (f : ℕ → ℕ) (active : c.Sender) (now since : ℕ) (s : Idle c)
      → IsRunning s
      → Tracks active now since s
      → Tracks (c.send_modify f active) now now s
  modify-Tracks f active now since (looping r) run (h, k) =
      (omega arith, laws.connected_modified f active r k)
  modify-Tracks f active now since (quiet r d) run (h, k, b, _) = (
    omega arith,
    laws.connected_modified f active r k,
    b,
    inl (laws.modify_notifies f active r k),
  )
  modify-Tracks f active now since (busy r) run (h, k, _) =
      (omega arith, laws.connected_modified f active r k, inl (laws.modify_notifies f active r k))
  modify-Tracks f active now since returned run t = elim run [ ]
  modify-Tracks f active now since panicked run t = elim run [ ]

  pub wait-Tracks :
      (active : c.Sender) (now since later : ℕ) (s : Idle c)
      → IsRunning s
      → Tracks active now since s
      → Tracks active (now + later) since s
  wait-Tracks active now since later (looping r) run (h, k) = (omega arith, k)
  wait-Tracks active now since later (quiet r d) run (h, k, b, e) = (omega arith, k, omega arith, e)
  wait-Tracks active now since later (busy r) run (h, k, e) = (omega arith, k, e)
  wait-Tracks active now since later returned run t = elim run [ ]
  wait-Tracks active now since later panicked run t = elim run [ ]

  looping-Tracks :
      (active : c.Sender) (now since : ℕ) (r : c.Receiver)
      → since ≤ now
      → Tracks active now since (turn c timeout now active (looping r))
  unfolding turn add_duration
  looping-Tracks active now since r h = elim (Bool-cases (c.borrow active == 0)) [
    | inr some_active ↦ rw some_active (h, laws.connected_marked active r, inr (λ e. ground arith))
    | inl empty ↦ elim (Bool-cases (ltb (now + timeout) instant_limit)) [
      | inl fits ↦
          rw (empty, fits)
            (h, laws.connected_marked active r, omega arith, inr (ground arith, omega arith))
      | inr beyond ↦ rw (empty, beyond) (ground arith)
    ]
  ]

  turn-Tracks :
      (active : c.Sender) (now since : ℕ) (s : Idle c)
      → Tracks active now since s
      → Tracks active now since (turn c timeout now active s)
  unfolding turn
  turn-Tracks active now since (looping r) (h, k) = looping-Tracks active now since r h
  turn-Tracks active now since (quiet r d) (h, k, b, e) =
      elim (Bool-cases (c.has_changed active r)) [
        | inl changed ↦ rw changed (h, laws.connected_marked active r)
        | inr same ↦ elim (Bool-cases (leb d now)) [
          | inl due ↦
              rw (same, due) (record { none_active = ground arith; long_enough = ground arith })
          | inr early ↦ rw (same, early) (h, k, b, e)
        ]
      ]
  turn-Tracks active now since (busy r) (h, k, e) = elim (Bool-cases (c.has_changed active r)) [
    | inl changed ↦ rw changed (h, laws.connected_marked active r)
    | inr same ↦ rw same (h, k, e)
  ]
  turn-Tracks active now since returned t = t
  turn-Tracks active now since panicked t = t

  turns-Tracks :
      (n : ℕ) (active : c.Sender) (now since : ℕ) (s : Idle c)
      → Tracks active now since s
      → Tracks active now since (turns c n timeout now active s)
  unfolding turns
  turns-Tracks zero active now since s t = t
  turns-Tracks (suc n) active now since s t =
      turns-Tracks n active now since (turn c timeout now active s)
        (turn-Tracks active now since s t)

  pub poll_idle-Tracks :
      (active : c.Sender) (now since : ℕ) (s : Idle c)
      → Tracks active now since s
      → Tracks active now since (poll_idle c timeout now active s)
  unfolding poll_idle
  poll_idle-Tracks active now since s t = turns-Tracks 3 active now since s t
