-- ===== src/Tests/Lifetimes.antt =====
-- The unit tests of src/lifecycle.rs: when the idle future returns, in seconds.
use xoa_proxy.Prelude.{◌+◌, ◌-◌, ℕ, ◌≡◌, refl, Bool, true, false, List, [], ◌∷◌}
use xoa_proxy.Lifecycle.Activity.{new_activity, enter, leave, increment, decrement}
use xoa_proxy.Lifecycle.Idle.{
  Idle, looping, quiet, busy, returned, panicked, start_idle, poll_idle, turn, turns, add_duration,
}
use xoa_proxy.Lifecycle.Idle.Timer.{Moment, expired}
use xoa_proxy.Lifecycle.Idle.Reference.{run_idle, timer, run_idle-run_timer}
use xoa_proxy.Tests.Example.{example_crates, example_watch}

-- `is_finished` after each poll: at a time, with the channel as it is then.
abbrev is_finished : Idle example_crates → Bool
is_finished returned = true
is_finished panicked = true
is_finished (looping changes) = false
is_finished (quiet changes deadline) = false
is_finished (busy changes) = false

abbrev finished_at : Idle example_crates → List (ℕ × (ℕ × ℕ)) → List Bool
finished_at future [] = []
finished_at future ((now, activity) ∷ rest) =
    let next = poll_idle example_crates 60 now activity future in
    is_finished next ∷ finished_at next rest

abbrev activity : ℕ × ℕ
activity = new_activity example_crates

abbrev entered : ℕ × ℕ
entered = enter example_crates activity

abbrev left : ℕ × ℕ
left = leave example_crates entered

-- `idle_expires_without_requests`
expires :
    finished_at
      (start_idle example_crates activity)
      ((0, activity) ∷ (59, activity) ∷ (60, activity) ∷ [])
    ≡ false ∷ false ∷ true ∷ []
unfolding start_idle poll_idle turn turns add_duration new_activity
expires = refl

-- `active_request_prevents_shutdown_and_drop_starts_full_window`, and the two tests in which a
-- handler that waits, and a response body, is what is active.
drop_starts_full_window :
    finished_at
      (start_idle example_crates entered)
      ((0, entered) ∷ (120, entered) ∷ (120, left) ∷ (179, left) ∷ (180, left) ∷ [])
    ≡ false ∷ false ∷ false ∷ false ∷ true ∷ []
unfolding start_idle poll_idle turn turns add_duration new_activity enter leave increment decrement
drop_starts_full_window = refl

-- `new_request_resets_idle_window_even_if_it_finishes_immediately`
new_request_resets :
    finished_at
      (start_idle example_crates activity)
      ((0, activity) ∷ (59, left) ∷ (118, left) ∷ (119, left) ∷ [])
    ≡ false ∷ false ∷ false ∷ true ∷ []
unfolding start_idle poll_idle turn turns add_duration new_activity enter leave increment decrement
new_request_resets = refl

-- The same test, as writes and polls.
abbrev resets : List Moment
resets = ([], 0) ∷ ((λ n. n + 1) ∷ (λ n. n - 1) ∷ [], 59) ∷ ([], 118) ∷ ([], 119) ∷ []

run_idle-run_timer_example :
    timer example_crates
      (run_idle example_crates 60 resets (0, 0) (start_idle example_crates (0, 0)))
    ≡ expired
run_idle-run_timer_example = run_idle-run_timer example_crates example_watch 60 resets (0, 0)
