-- ===== src/Lifecycle/Activity.antt =====
-- src/lifecycle.rs: `Activity` and `ActiveRequest`, the count of active requests in a watch channel.
use xoa_proxy.Prelude.{ℕ, ◌+◌, ◌-◌, ◌%◌, ◌^◌, ◌≡◌, arith}
use xoa_proxy.Crates.{Crates}

abbrev pub usize_mod : ℕ
usize_mod = 2 ^ 64

-- `*active += 1` and `*active -= 1`, wrapping.
unfoldable pub increment : ℕ → ℕ
increment active = (active + 1) % usize_mod

unfoldable pub decrement : ℕ → ℕ
decrement active = (active + usize_mod - 1) % usize_mod

module _ (c : Crates) where
  -- `Activity::default`
  unfoldable pub new_activity : c.Sender
  new_activity = c.channel 0

  -- `Activity::enter`; the value that it returns is what `leave` drops.
  unfoldable pub enter : c.Sender → c.Sender
  enter active = c.send_modify increment active

  -- `ActiveRequest::drop`
  unfoldable pub leave : c.Sender → c.Sender
  leave active = c.send_modify decrement active

-- The counter is the number of guards, as far as a `usize` can count, whatever it was before.
pub increment-mod : (n : ℕ) → increment (n % usize_mod) ≡ (n + 1) % usize_mod
unfolding increment
increment-mod n = omega arith

pub decrement-mod : (n : ℕ) → decrement ((n + 1) % usize_mod) ≡ n % usize_mod
unfolding decrement
decrement-mod n = omega arith
