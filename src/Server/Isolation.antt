-- ===== src/Server/Isolation.antt =====
-- What the actions of a server leave of a request that they do not concern.
pub mod Alone
pub mod Outcome
use xoa_proxy.Prelude.{
  ℕ, zero, suc, ◌≡◌, ◌≢◌, refl, ap, sym, ◌∙◌, inl, inr, Bool, Bool-cases, Option-cases, some, List,
  [], ◌∷◌, ◌++◌, length, get_elem?, set, arith, ◌==◌, ==_iff, ◌+◌, if◌then◌else◌,
}
use xoa_proxy.Rust.Result.{Result, ok, err}
use xoa_proxy.Crates.{Crates, ResponseHead}
use xoa_proxy.Stream.{GuardedStream, poll_next}
use xoa_proxy.Error.{ProxyError}
use xoa_proxy.Async.{UpstreamRequest, Async}
use xoa_proxy.Handler.{ImageResponse}
use xoa_proxy.Server.{
  Call, Task, awaiting, responding, rejected, gone, Server, Action, arrives, rejects, answers,
  polls, drops, arrive, reject, resume, poll_body, release, step, history, at_task,
}
use xoa_proxy.Server.Count.{All}

module _ {A : Type 0} where
  get_elem?-set_ne :
      (xs : List A) (i j : ℕ) (y : A) → i ≢ j → get_elem? (set xs j y) i ≡ get_elem? xs i
  get_elem?-set_ne [] i j y h = refl
  get_elem?-set_ne (x ∷ xs) zero zero y h = absurd (h refl)
  get_elem?-set_ne (x ∷ xs) zero (suc j) y h = refl
  get_elem?-set_ne (x ∷ xs) (suc i) zero y h = refl
  get_elem?-set_ne (x ∷ xs) (suc i) (suc j) y h = get_elem?-set_ne xs i j y (λ e. h (ap suc e))

  pub get_elem?-set :
      (xs : List A) (i : ℕ) (x y : A) → get_elem? xs i ≡ some x → get_elem? (set xs i y) i ≡ some y
  get_elem?-set [] i x y e = absurd (cc)
  get_elem?-set (z ∷ xs) zero x y e = refl
  get_elem?-set (z ∷ xs) (suc i) x y e = get_elem?-set xs i x y e

  get_elem?-append :
      (xs ys : List A) (i : ℕ) (x : A) → get_elem? xs i ≡ some x → get_elem? (xs ++ ys) i ≡ some x
  get_elem?-append [] ys i x e = absurd (cc)
  get_elem?-append (z ∷ xs) ys zero x e = e
  get_elem?-append (z ∷ xs) ys (suc i) x e = get_elem?-append xs ys i x e

  pub get_elem?-last : (xs : List A) (x : A) → get_elem? (xs ++ x ∷ []) (length xs) ≡ some x
  get_elem?-last [] x = refl
  get_elem?-last (y ∷ xs) x = get_elem?-last xs x

module _ (c : Crates) where
  resume-elsewhere :
      (s : Server c) (i j : ℕ) (r : Result c.Error c.Response) (t : Task c)
      → i ≢ j
      → get_elem? (resume c s j r t).tasks i ≡ get_elem? s.tasks i
  unfolding resume
  resume-elsewhere s i j r (awaiting held q k) h = get_elem?-set_ne s.tasks i j _ h
  resume-elsewhere s i j r (responding reply) h = refl
  resume-elsewhere s i j r (rejected status) h = refl
  resume-elsewhere s i j r gone h = refl

  release-elsewhere :
      (s : Server c) (i j : ℕ) (t : Task c)
      → i ≢ j
      → get_elem? (release c s j t).tasks i ≡ get_elem? s.tasks i
  unfolding release
  release-elsewhere s i j (awaiting held q k) h = get_elem?-set_ne s.tasks i j gone h
  release-elsewhere s i j (responding (ok response)) h = get_elem?-set_ne s.tasks i j gone h
  release-elsewhere s i j (responding (err e)) h = get_elem?-set_ne s.tasks i j gone h
  release-elsewhere s i j (rejected status) h = get_elem?-set_ne s.tasks i j gone h
  release-elsewhere s i j gone h = refl

  -- An action on another task, whatever it does there.
  at_task-elsewhere :
      (s : Server c) (i j : ℕ) (f : Task c → Server c)
      → ((t : Task c) → get_elem? (f t).tasks i ≡ get_elem? s.tasks i)
      → get_elem? (at_task c s j f).tasks i ≡ get_elem? s.tasks i
  at_task-elsewhere s i j f h = elim (Option-cases (get_elem? s.tasks j)) [
    | inl missing ↦ rw (missing, at_task) refl
    | inr (t, e) ↦ rw (e, at_task) (h t)
  ]

  -- An action that finds the task at its place.
  at_task-here :
      (s : Server c) (i : ℕ) (t : Task c) (f : Task c → Server c)
      → get_elem? s.tasks i ≡ some t
      → at_task c s i f ≡ f t
  at_task-here s i t f e = rw (e, at_task) refl

  step-polls :
      (s : Server c) (i j : ℕ) (t : Task c)
      → get_elem? s.tasks i ≡ some t
      → get_elem? (step c s (polls j)).tasks i ≡ some (if i == j then poll_body c t else t)
  unfolding step
  step-polls s i j t e = elim (Bool-cases (i == j)) [
    | inl same ↦
        rw (same, ← (==_iff i j).0 same, at_task-here s i t _ e)
          (get_elem?-set s.tasks i t (poll_body c t) e)
    | inr other ↦ rw other (
        at_task-elsewhere s i j _
          (λ u. get_elem?-set_ne s.tasks i j _ (λ h. cc (sym other ∙ (==_iff i j).1 h)))
        ∙ e)
  ]

  step-drops :
      (s : Server c) (i j : ℕ) (t : Task c)
      → i ≢ j
      → get_elem? s.tasks i ≡ some t
      → get_elem? (step c s (drops j)).tasks i ≡ some t
  unfolding step
  step-drops s i j t h e = at_task-elsewhere s i j _ (λ u. release-elsewhere s i j u h) ∙ e

  step-arrives :
      (s : Server c) (i : ℕ) (t : Task c) (call : Call)
      → get_elem? s.tasks i ≡ some t
      → get_elem? (step c s (arrives call)).tasks i ≡ some t
  unfolding step arrive
  step-arrives s i t call e = get_elem?-append s.tasks _ i t e

  step-rejects :
      (s : Server c) (i : ℕ) (t : Task c) (status : ℕ)
      → get_elem? s.tasks i ≡ some t
      → get_elem? (step c s (rejects status)).tasks i ≡ some t
  unfolding step reject
  step-rejects s i t status e = get_elem?-append s.tasks _ i t e
