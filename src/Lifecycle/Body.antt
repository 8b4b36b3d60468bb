-- ===== src/Lifecycle/Body.antt =====
-- src/lifecycle.rs: `ActiveBody`, the body that `track` puts round the body of each response.
use xoa_proxy.Prelude.{ℕ, zero, suc, ◌≡◌, refl, ap, Bool, List, [], ◌∷◌}

-- The trait `HttpBody`, and a type that implements it. `Answer` is what a poll answers.
pub record HttpBody : Type 1 where
  pub Body : Type 0
  pub Answer : Type 0
  pub SizeHint : Type 0
  pub poll_frame : Body → Answer × Body
  pub is_end_stream : Body → Bool
  pub size_hint : Body → SizeHint

-- To have one is to be counted as active.
pub data ActiveRequest : Type 0 where
  active_request : ActiveRequest

pub record ActiveBody (b : HttpBody) : Type 0 where
  pub inner : b.Body
  pub guard : ActiveRequest

module _ (b : HttpBody) where
  unfoldable pub poll_frame : ActiveBody b → b.Answer × ActiveBody b
  poll_frame body =
      let (answer, inner) = b.poll_frame body.inner in (answer, record body { inner = inner })

  unfoldable pub is_end_stream : ActiveBody b → Bool
  is_end_stream body = b.is_end_stream body.inner

  unfoldable pub size_hint : ActiveBody b → b.SizeHint
  size_hint body = b.size_hint body.inner

  -- `impl HttpBody for ActiveBody`
  abbrev pub active_body : HttpBody
  active_body = record {
    Body = ActiveBody b;
    Answer = b.Answer;
    SizeHint = b.SizeHint;
    poll_frame = poll_frame;
    is_end_stream = is_end_stream;
    size_hint = size_hint;
  }

-- All that a server sees of a body in `n` polls: before each poll, whether the body has ended, and
-- its size hint; and the answers.
abbrev pub seen : (b : HttpBody) → ℕ → b.Body → List (Bool × b.SizeHint × b.Answer)
seen b zero body = []
seen b (suc n) body =
    (b.is_end_stream body, b.size_hint body, (b.poll_frame body).0) ∷ seen b n (b.poll_frame body).1

module _ (b : HttpBody) where
  -- A server sees of a tracked body just what it would see of the body inside: the same frames and
  -- errors, the same end, and the same size hints, in any number of polls.
  pub active_body-transparent :
      (n : ℕ) (inner : b.Body) (guard : ActiveRequest)
      → seen (active_body b) n (record { inner = inner; guard = guard }) ≡ seen b n inner
  unfolding poll_frame is_end_stream size_hint
  active_body-transparent zero inner guard = refl
  active_body-transparent (suc n) inner guard =
      ap (◌∷◌ (b.is_end_stream inner, b.size_hint inner, (b.poll_frame inner).0))
        (active_body-transparent n (b.poll_frame inner).1 guard)
