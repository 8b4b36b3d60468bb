-- ===== src/Server/Isolation/Outcome.antt =====
-- A request that waits, and a body that is being sent, among the actions of a server.
use xoa_proxy.Prelude.{
  ℕ, zero, suc, ◌+◌, ◌≡◌, ◌≢◌, refl, ap, sym, ◌∙◌, inl, inr, Bool, Bool-cases, some, List, [], ◌∷◌,
  get_elem?, arith, ◌==◌, ==_iff, if◌then◌else◌,
}
use xoa_proxy.Rust.Text.{Text}
use xoa_proxy.Rust.Result.{Result, ok, err}
use xoa_proxy.Crates.{Crates, ResponseHead, Poll, pending, ready}
use xoa_proxy.Crates.Laws.{MutexLaws}
use xoa_proxy.Error.{ProxyError}
use xoa_proxy.Format.{ImageFormat}
use xoa_proxy.Async.{UpstreamRequest, Async}
use xoa_proxy.Stream.{OwnedMutexGuard, GuardedStream, poll_next}
use xoa_proxy.Stream.Laws
use xoa_proxy.Stream.Laws.{stream_of}
use xoa_proxy.Handler.{ImageResponse}
use xoa_proxy.Server.{
  Task, awaiting, responding, Server, Action, arrives, rejects, answers, polls, drops, poll_body,
  step, history,
}
use xoa_proxy.Server.Count.{All}
use xoa_proxy.Server.Isolation.Alone.{own, alone, undergo, step-own}

module _ (c : Crates) where
  -- The action is no upstream answer to the request at `i`, and does not drop it.
  abbrev pub Spares : ℕ → Action c → Type 0
  Spares i (arrives call) = Unit
  Spares i (rejects status) = Unit
  Spares i (answers j r) = i ≢ j
  Spares i (polls j) = Unit
  Spares i (drops j) = i ≢ j

  -- The action does not drop the request at `i`.
  abbrev pub Stays : ℕ → Action c → Type 0
  Stays i (arrives call) = Unit
  Stays i (rejects status) = Unit
  Stays i (answers j r) = Unit
  Stays i (polls j) = Unit
  Stays i (drops j) = i ≢ j

  -- A stream after a number of polls.
  abbrev pub polled : ℕ → GuardedStream c → GuardedStream c
  polled n body = (Laws.polls c n body).1

  -- How often the actions poll the body of the request at `i`.
  abbrev pub polls_at : ℕ → Action c → ℕ
  polls_at i (arrives call) = 0
  polls_at i (rejects status) = 0
  polls_at i (answers j r) = 0
  polls_at i (polls j) = if i == j then 1 else 0
  polls_at i (drops j) = 0

  abbrev pub polls_to : ℕ → List (Action c) → ℕ
  polls_to i [] = 0
  polls_to i (a ∷ rest) = polls_at i a + polls_to i rest

  abbrev pub sending : ResponseHead → GuardedStream c → Task c
  sending head body = responding (ok (record { head = head; body = body }))

  -- The end of a stream is polled without a change.
  polled-ended :
      (n sent : ℕ) (held : OwnedMutexGuard) (src : Text) (format : ImageFormat)
      → polled n (stream_of c [] sent held src format) ≡ stream_of c [] sent held src format
  unfolding poll_next
  polled-ended zero sent held src format = refl
  polled-ended (suc n) sent held src format = refl

  polled-stream_of :
      (n : ℕ) (inner : List (Poll c.IoError)) (sent : ℕ) (held : OwnedMutexGuard) (src : Text)
      (format : ImageFormat)
      → polled (suc n) (stream_of c inner sent held src format)
        ≡ polled n (poll_next c (stream_of c inner sent held src format)).1
  unfolding poll_next
  polled-stream_of n [] sent held src format = sym (polled-ended n sent held src format)
  polled-stream_of n (pending ∷ rest) sent held src format = refl
  polled-stream_of n (ready (ok b) ∷ rest) sent held src format = refl
  polled-stream_of n (ready (err e) ∷ rest) sent held src format = refl

  polled-next :
      (n : ℕ) (body : GuardedStream c) → polled (suc n) body ≡ polled n (poll_next c body).1
  polled-next n body =
      polled-stream_of n body.inner body.bytes_sent body.held body.src_url body.format

  polled-add : (n m : ℕ) (body : GuardedStream c) → polled m (polled n body) ≡ polled (n + m) body
  polled-add zero m body =
      let none_yet : m ≡ 0 + m = omega arith in ap (λ x. polled x body) none_yet
  polled-add (suc n) m body =
      let later : suc (n + m) ≡ suc n + m = omega arith in
      ap (polled m) (polled-next n body)
      ∙ polled-add n m (poll_next c body).1
      ∙ sym (polled-next (n + m) body)
      ∙ ap (λ x. polled x body) later

  module _ (mutex : MutexLaws c) where
    own-awaiting :
        (s : Server c) (i : ℕ) (held : Bool) (q : UpstreamRequest c)
        (k : Result c.Error c.Response → Async c ProxyError (ImageResponse c)) (a : Action c)
        → Spares i a
        → alone c (own c mutex s i a) (awaiting held q k) ≡ awaiting held q k
    unfolding undergo poll_body
    own-awaiting s i held q k (arrives call) h = refl
    own-awaiting s i held q k (rejects status) h = refl
    own-awaiting s i held q k (answers j r) h = elim (Bool-cases (i == j)) [
      | inl same ↦ absurd (h ((==_iff i j).0 same))
      | inr other ↦ rw other refl
    ]
    own-awaiting s i held q k (polls j) h = elim (Bool-cases (i == j)) [
      | inl same ↦ rw same refl
      | inr other ↦ rw other refl
    ]
    own-awaiting s i held q k (drops j) h = elim (Bool-cases (i == j)) [
      | inl same ↦ absurd (h ((==_iff i j).0 same))
      | inr other ↦ rw other refl
    ]

    -- A request goes on waiting, whatever does not concern it.
    pub history-awaiting :
        (s : Server c) (i : ℕ) (held : Bool) (q : UpstreamRequest c)
        (k : Result c.Error c.Response → Async c ProxyError (ImageResponse c))
        (actions : List (Action c))
        → All (Spares i) actions
        → get_elem? s.tasks i ≡ some (awaiting held q k)
        → get_elem? (history c s actions).tasks i ≡ some (awaiting held q k)
    unfolding history
    history-awaiting s i held q k [] h e = e
    history-awaiting s i held q k (a ∷ rest) (p, h) e =
        history-awaiting (step c s a) i held q k rest h
          (step-own c mutex s i _ a e ∙ ap some (own-awaiting s i held q k a p))

    own-sending :
        (s : Server c) (i : ℕ) (head : ResponseHead) (body : GuardedStream c) (a : Action c)
        → Stays i a
        → alone c (own c mutex s i a) (sending head body)
          ≡ sending head (polled (polls_at i a) body)
    unfolding undergo poll_body
    own-sending s i head body (arrives call) h = refl
    own-sending s i head body (rejects status) h = refl
    own-sending s i head body (answers j r) h = elim (Bool-cases (i == j)) [
      | inl same ↦ rw same refl
      | inr other ↦ rw other refl
    ]
    own-sending s i head body (polls j) h = elim (Bool-cases (i == j)) [
      | inl same ↦ rw same (ap (sending head) (sym (polled-next 0 body)))
      | inr other ↦ rw other refl
    ]
    own-sending s i head body (drops j) h = elim (Bool-cases (i == j)) [
      | inl same ↦ absurd (h ((==_iff i j).0 same))
      | inr other ↦ rw other refl
    ]

    -- A body that is being sent is polled by its connection alone.
    pub history-sending :
        (s : Server c) (i : ℕ) (head : ResponseHead) (body : GuardedStream c)
        (actions : List (Action c))
        → All (Stays i) actions
        → get_elem? s.tasks i ≡ some (sending head body)
        → get_elem? (history c s actions).tasks i
          ≡ some (sending head (polled (polls_to i actions) body))
    unfolding history
    history-sending s i head body [] h e = e
    history-sending s i head body (a ∷ rest) (p, h) e =
        history-sending (step c s a) i head (polled (polls_at i a) body) rest h
          (step-own c mutex s i _ a e ∙ ap some (own-sending s i head body a p))
        ∙ ap (λ b. some (sending head b)) (polled-add (polls_at i a) (polls_to i rest) body)
