-- ===== src/Lifecycle/Idle/Unarmed.antt =====
-- That the idle future sets no timer while a request is active.
use xoa_proxy.Prelude.{ℕ, ◌+◌, ◌<◌, ◌≡◌, refl, sym, ◌∙◌, ◌≢◌, inl, inr, false, arith}
use xoa_proxy.Crates.{Crates}
use xoa_proxy.Crates.Laws.{WatchLaws}
use xoa_proxy.Lifecycle.Idle.{
  instant_limit, Idle, looping, quiet, busy, returned, panicked, poll_idle,
}
use xoa_proxy.Lifecycle.Idle.Laws.{Tracks, poll_idle-Tracks}
use xoa_proxy.Lifecycle.Idle.Progress.{IsSettled, poll_idle-IsSettled}

module _ (c : Crates) (laws : WatchLaws c) (timeout : ℕ) where
  -- While a request is active, a poll of a future that follows its channel sets no timer: it leaves
  -- the future waiting for a change of the count, which has not happened yet, and for nothing else,
  -- if the sum of the time and the timeout is an `Instant`.
  poll_idle_unarmed :
      (active : c.Sender) (now since : ℕ) (s : Idle c)
      → Tracks c laws timeout active now since s
      → c.borrow active ≢ 0
      → now + timeout < instant_limit
      → (changes : c.Receiver) × (poll_idle c timeout now active s ≡ busy changes)
        × (c.has_changed active changes ≡ false)
  poll_idle_unarmed active now since s t some_active fits =
      waits (poll_idle c timeout now active s)
        (poll_idle-Tracks c laws timeout active now since s t)
        (poll_idle-IsSettled c laws timeout active now s).0
    where
      waits :
          (p : Idle c)
          → Tracks c laws timeout active now since p
          → IsSettled c laws timeout active now p
          → (changes : c.Receiver) × (p ≡ busy changes) × (c.has_changed active changes ≡ false)
      waits (busy r) _ same = (r, refl, same)
      waits (quiet r d) (_, _, _, inl changed) (same, _) = absurd (cc (sym changed ∙ same))
      waits (quiet r d) (_, _, _, inr (empty, _)) (same, _) = absurd (some_active empty)
      waits returned idle _ = absurd (some_active idle.none_active)
      waits panicked beyond _ = absurd (omega arith)
      waits (looping r) _ h = elim h [ ]
