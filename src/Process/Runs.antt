-- ===== src/Process/Runs.antt =====
-- Why a process stops serving, and what holds of it until then.
use xoa_proxy.Prelude.{◌+◌, ◌≤◌, ◌≡◌, ◌≢◌, ◌⊎◌, true, false, Option, none, some}
use xoa_proxy.Crates.{Crates}
use xoa_proxy.Crates.Laws.{MutexLaws, WatchLaws}
use xoa_proxy.Lifecycle.Listener.{Sockets}
use xoa_proxy.Lifecycle.Idle.{instant_limit, Idle, panicked}
use xoa_proxy.Lifecycle.Idle.Laws.{IsIdle, Tracks, IsRunning}
use xoa_proxy.Server.Invariant.{Inv}
use xoa_proxy.Process.{Process, is_signalled}

module _ (c : Crates) (o : Sockets) (mutex : MutexLaws c) (watch : WatchLaws c) where
  -- The deadline of an idle timeout that begins now would be no `Instant`.
  abbrev pub IsBeyond : Process c o → Type 0
  IsBeyond p = instant_limit ≤ p.now + p.idle_timeout

  -- The idle future follows the activity count while it runs; it may also have panicked.
  abbrev pub Follows : Process c o → Option (Idle c) → Type 0
  Follows p none = Unit
  Follows p (some f) =
      (IsRunning c watch p.idle_timeout f
        × Tracks c watch p.idle_timeout p.server.activity p.now p.since f)
      ⊎ ((f ≡ panicked) × IsBeyond p)

  -- Why a process has stopped serving.
  abbrev pub MayStop : Process c o → Type 0
  MayStop p =
      (is_signalled c o p ≡ true)
      ⊎ ((p.idle ≢ none)
          × (IsIdle c watch p.idle_timeout p.server.activity p.now p.since ⊎ IsBeyond p))

  pub record Runs (p : Process c o) : Type 0 where
    pub valid : Inv c mutex p.server
    pub ordered : p.since ≤ p.now
    pub follows : (p.stopping ≡ true) ⊎ Follows p p.idle
    pub justified : (p.stopping ≡ false) ⊎ MayStop p
