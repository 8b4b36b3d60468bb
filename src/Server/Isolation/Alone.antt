-- ===== src/Server/Isolation/Alone.antt =====
-- A request by itself: its own run, in which the other requests show only as the state of the import
-- lock.
use xoa_proxy.Prelude.{
  ℕ, ◌≡◌, refl, ap, sym, ◌∙◌, inl, inr, Bool, true, false, Bool-cases, some, List, [], ◌∷◌, ◌++◌,
  get_elem?, ◌==◌, ==_iff, if◌then◌else◌,
}
use xoa_proxy.Rust.Result.{Result, ok, err}
use xoa_proxy.Crates.{Crates}
use xoa_proxy.Crates.Laws.{MutexLaws}
use xoa_proxy.Error.{ProxyError}
use xoa_proxy.Async.{Async, done, fail, send, try_lock, drop_guard, log}
use xoa_proxy.Handler.{ImageResponse}
use xoa_proxy.Server.{
  Task, awaiting, responding, rejected, gone, Server, Action, arrives, rejects, answers, polls,
  drops, advance, resume, poll_body, release, step,
}
use xoa_proxy.Server.Release.{release-tasks}
use xoa_proxy.Server.Isolation.{
  get_elem?-set, resume-elsewhere, at_task-elsewhere, at_task-here, step-polls, step-drops,
  step-arrives, step-rejects,
}

module _ (c : Crates) where
  -- What happens to a request itself. An upstream answer finds the import lock locked or free.
  pub data Own : Type 0 where
    answered : (locked : Bool) → Result c.Error c.Response → Own
    sent : Own
    dropped : Own

  -- The handler's code up to its next await, or to its end, where `locked` is all that is known of
  -- the import lock.
  unfoldable pub proceed : Bool → Bool → Async c ProxyError (ImageResponse c) → Bool × Task c
  proceed locked held (done response) = (locked, responding (ok response))
  proceed locked held (fail e) = (locked, responding (err e))
  proceed locked held (send q k) = (locked, awaiting held q k)
  proceed locked held (try_lock k) = elim locked [
    | true ↦ proceed true held (k false)
    | false ↦ proceed true true (k true)
  ]
  proceed locked held (drop_guard p) = proceed false false p
  proceed locked held (log l p) = proceed locked held p

  unfoldable pub undergo : Own → Task c → Task c
  unfolding proceed
  undergo (answered locked r) (awaiting held q k) = (proceed locked held (k r)).1
  undergo (answered locked r) (responding reply) = responding reply
  undergo (answered locked r) (rejected status) = rejected status
  undergo (answered locked r) gone = gone
  undergo sent t = poll_body c t
  undergo dropped t = gone

  -- A request by itself.
  abbrev pub alone : List Own → Task c → Task c
  alone [] t = t
  alone (o ∷ rest) t = alone rest (undergo o t)

  module _ (mutex : MutexLaws c) where
    -- What an action is to the request at `i`.
    abbrev pub own : Server c → ℕ → Action c → List Own
    own s i (arrives call) = []
    own s i (rejects status) = []
    own s i (answers j r) = if i == j then answered (mutex.locked s.app.import_lock) r ∷ [] else []
    own s i (polls j) = if i == j then sent ∷ [] else []
    own s i (drops j) = if i == j then dropped ∷ [] else []

    abbrev pub owns : Server c → ℕ → List (Action c) → List Own
    owns s i [] = []
    owns s i (a ∷ rest) = own s i a ++ owns (step c s a) i rest

    -- The handler sees of the mutex just whether it is locked.
    advance-proceed :
        (m : c.Mutex) (held : Bool) (p : Async c ProxyError (ImageResponse c))
        → (advance c m held p).1 ≡ (proceed (mutex.locked m) held p).1
    unfolding advance proceed
    advance-proceed m held (done response) = refl
    advance-proceed m held (fail e) = refl
    advance-proceed m held (send q k) = refl
    advance-proceed m held (try_lock k) = elim (Bool-cases (mutex.locked m)) [
      | inl busy ↦
          let rest = advance-proceed m held (k false) in
          rw (mutex.try_held m busy, advance) (rw (busy, proceed) (rw busy at rest))
      | inr free ↦
          let (m', got, taken) = mutex.try_free m free in
          let rest = advance-proceed m' true (k true) in
          rw (got, advance) (rw (free, proceed) (rw taken at rest))
    ]
    advance-proceed m held (drop_guard p) =
        let rest = advance-proceed (c.drop_guard m) false p in rw (mutex.drop_frees m) at rest
    advance-proceed m held (log l p) = advance-proceed m held p

    resume-undergo :
        (s : Server c) (i : ℕ) (r : Result c.Error c.Response) (t : Task c)
        → get_elem? s.tasks i ≡ some t
        → get_elem? (resume c s i r t).tasks i
          ≡ some (undergo (answered (mutex.locked s.app.import_lock) r) t)
    unfolding resume undergo
    resume-undergo s i r (awaiting held q k) e =
        get_elem?-set s.tasks i _ _ e ∙ ap some (advance-proceed s.app.import_lock held (k r))
    resume-undergo s i r (responding reply) e = e
    resume-undergo s i r (rejected status) e = e
    resume-undergo s i r gone e = e

    release-undergo :
        (s : Server c) (i : ℕ) (t : Task c)
        → get_elem? s.tasks i ≡ some t
        → get_elem? (release c s i t).tasks i ≡ some gone
    release-undergo s i t e =
        ap (λ ts. get_elem? ts i) (release-tasks c s i t e) ∙ get_elem?-set s.tasks i t gone e

    pub step-own :
        (s : Server c) (i : ℕ) (t : Task c) (a : Action c)
        → get_elem? s.tasks i ≡ some t
        → get_elem? (step c s a).tasks i ≡ some (alone (own s i a) t)
    unfolding step undergo
    step-own s i t (arrives call) e = step-arrives c s i t call e
    step-own s i t (rejects status) e = step-rejects c s i t status e
    step-own s i t (answers j r) e = elim (Bool-cases (i == j)) [
      | inl same ↦
          rw (same, ← (==_iff i j).0 same, at_task-here c s i t _ e) (resume-undergo s i r t e)
      | inr other ↦ rw other (
          at_task-elsewhere c s i j _
            (λ u. resume-elsewhere c s i j r u (λ h. cc (sym other ∙ (==_iff i j).1 h)))
          ∙ e)
    ]
    step-own s i t (polls j) e = elim (Bool-cases (i == j)) [
      | inl same ↦ step-polls c s i j t e ∙ (rw same refl)
      | inr other ↦ step-polls c s i j t e ∙ (rw other refl)
    ]
    step-own s i t (drops j) e = elim (Bool-cases (i == j)) [
      | inl same ↦
          rw (same, ← (==_iff i j).0 same, at_task-here c s i t _ e) (release-undergo s i t e)
      | inr other ↦ rw other (step-drops c s i j t (λ h. cc (sym other ∙ (==_iff i j).1 h)) e)
    ]
