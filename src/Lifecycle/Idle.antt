-- ===== src/Lifecycle/Idle.antt =====
-- src/lifecycle.rs: `Activity::idle`, as a state machine that is polled.
pub mod Laws
pub mod Progress
pub mod Unarmed
pub mod Timer
pub mod Reference
use xoa_proxy.Prelude.{
  ℕ, zero, suc, ◌+◌, ◌*◌, ◌^◌, Bool, true, false, Option, none, some, ltb, leb, ◌==◌, if◌then◌else◌,
}
use xoa_proxy.Crates.{Crates}

-- Times are nanoseconds. The seconds of an `Instant` are an `i64`.
abbrev pub instant_limit : ℕ
instant_limit = 2 ^ 63 * 1_000_000_000

-- `Instant::now() + timeout`, which panics if the sum is no `Instant`.
unfoldable pub add_duration : ℕ → ℕ → Option ℕ
add_duration now timeout = if ltb (now + timeout) instant_limit then some (now + timeout) else none

module _ (c : Crates) where
  -- Where the future stands, with its receiver `changes` and the deadline of its sleep.
  pub data Idle : Type 0 where
    looping : c.Receiver → Idle  -- head of the loop
    quiet : c.Receiver → ℕ → Idle  -- in `select!`
    busy : c.Receiver → Idle  -- in `changes.changed().await`
    returned panicked : Idle

  -- The call of `idle`, up to the head of the loop.
  unfoldable pub start_idle : c.Sender → Idle
  start_idle active = looping (c.subscribe active)

  abbrev sleep_from : c.Receiver → Option ℕ → Idle
  sleep_from changes none = panicked
  sleep_from changes (some deadline) = quiet changes deadline

  -- One turn of the future at the time `now`: to the next await, or past it if it is ready.
  unfoldable pub turn : ℕ → ℕ → c.Sender → Idle → Idle
  unfolding add_duration
  turn timeout now active (looping changes) =
      if c.borrow active == 0
      then sleep_from (c.mark_seen active changes) (add_duration now timeout)
      else busy (c.mark_seen active changes)
  turn timeout now active (quiet changes deadline) =
      if c.has_changed active changes
      then looping (c.mark_seen active changes)
      else if leb deadline now
      then returned
      else quiet changes deadline
  turn timeout now active (busy changes) =
      if c.has_changed active changes then looping (c.mark_seen active changes) else busy changes
  turn timeout now active returned = returned
  turn timeout now active panicked = panicked

  unfoldable pub turns : ℕ → ℕ → ℕ → c.Sender → Idle → Idle
  turns zero timeout now active s = s
  turns (suc n) timeout now active s = turns n timeout now active (turn timeout now active s)

  -- A poll: three turns are enough to come to a halt (`poll_idle-IsSettled`).
  unfoldable pub poll_idle : ℕ → ℕ → c.Sender → Idle → Idle
  unfolding turns
  poll_idle timeout now active s = turns 3 timeout now active s
