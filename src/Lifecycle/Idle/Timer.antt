-- ===== src/Lifecycle/Idle/Timer.antt =====
-- A timer with no channel and no loop, as a reference for the idle future.
use xoa_proxy.Prelude.{ℕ, ◌+◌, Bool, true, false, List, [], ◌∷◌, ltb, leb, ◌==◌, if◌then◌else◌}
use xoa_proxy.Lifecycle.Idle.{instant_limit}

-- `armed d`: no request is active, and the future returns at the time `d`.
pub data Timer : Type 0 where
  fresh : Timer
  armed : ℕ → Timer
  waiting expired broken : Timer

abbrev pub expire : ℕ → ℕ → Timer
expire now deadline = if leb deadline now then expired else armed deadline

-- A new window, if no request is active.
abbrev pub rearm : ℕ → ℕ → ℕ → Timer
rearm timeout now count =
    if count == 0
    then if ltb (now + timeout) instant_limit then expire now (now + timeout) else broken
    else waiting

-- One poll, where `changed` says whether the count has been written since the last one.
abbrev pub tick : ℕ → ℕ → ℕ → Bool → Timer → Timer
tick timeout now count changed fresh = rearm timeout now count
tick timeout now count changed (armed d) = if changed then rearm timeout now count else expire now d
tick timeout now count changed waiting = if changed then rearm timeout now count else waiting
tick timeout now count changed expired = expired
tick timeout now count changed broken = broken

-- The writes to the count since the last poll, and the time of this one.
abbrev pub Moment : Type 0
Moment = List (ℕ → ℕ) × ℕ

abbrev pub written : List (ℕ → ℕ) → ℕ → ℕ
written [] n = n
written (f ∷ fs) n = written fs (f n)

abbrev pub is_written : List (ℕ → ℕ) → Bool
is_written [] = false
is_written (f ∷ fs) = true

abbrev pub run_timer : ℕ → List Moment → ℕ → Timer → Timer
run_timer timeout [] count t = t
run_timer timeout ((fs, now) ∷ rest) count t =
    run_timer timeout rest (written fs count)
      (tick timeout now (written fs count) (is_written fs) t)
