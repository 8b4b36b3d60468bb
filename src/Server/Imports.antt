-- ===== src/Server/Imports.antt =====
-- One import at a time: what the valid states of a server promise to its clients.
use xoa_proxy.Prelude.{
  ℕ, ◌≤◌, ◌≡◌, refl, ◌∙◌, Bool, true, false, some, List, [], ◌∷◌, arith, get_elem?,
}
use xoa_proxy.Rust.Result.{ok, err}
use xoa_proxy.Crates.{Crates}
use xoa_proxy.Crates.Laws.{MutexLaws, WatchLaws}
use xoa_proxy.Async.{Method}
use xoa_proxy.Handler.Traffic.{LockFits}
use xoa_proxy.Server.Count.{one_if, total, total_mono, All}
use xoa_proxy.Server.{
  Task, awaiting, responding, rejected, gone, Server, Action, drops, step, history, start,
}
use xoa_proxy.Server.Invariant.{guards, active, IsTidy, Inv}
use xoa_proxy.Server.Steps.{history-start-Inv}
use xoa_proxy.Server.Release.{drops-release}

module _ (c : Crates) where
  abbrev is_get : Method → ℕ
  is_get Method.head = 0
  is_get Method.get = 1

  -- 1 for a task that downloads an image or sends one to its client.
  abbrev pub transfers : Task c → ℕ
  transfers (awaiting held q k) = is_get q.method
  transfers (responding (ok response)) = 1
  transfers (responding (err e)) = 0
  transfers (rejected status) = 0
  transfers gone = 0

  is_get-le : (held : Bool) (m : Method) → LockFits c held m → is_get m ≤ one_if held
  is_get-le held Method.head h = omega arith
  is_get-le held Method.get h = rw h (omega arith)

  transfers-le-guards : (t : Task c) → IsTidy c t → transfers t ≤ guards c t
  transfers-le-guards (awaiting held q k) h = is_get-le held q.method h.0
  transfers-le-guards (responding (ok response)) h = omega arith
  transfers-le-guards (responding (err e)) h = omega arith
  transfers-le-guards (rejected status) h = omega arith
  transfers-le-guards gone h = omega arith

  one_if-le : (b : Bool) → one_if b ≤ 1
  one_if-le true = omega arith
  one_if-le false = omega arith

  guards-le-active : (t : Task c) → guards c t ≤ active c t
  guards-le-active (awaiting true q k) = omega arith
  guards-le-active (awaiting false q k) = omega arith
  guards-le-active (responding (ok response)) = omega arith
  guards-le-active (responding (err e)) = omega arith
  guards-le-active (rejected status) = omega arith
  guards-le-active gone = omega arith

  All-trivial : (ts : List (Task c)) → All (λ _. Unit {0}) ts
  All-trivial [] = tt
  All-trivial (t ∷ ts) = (tt, All-trivial ts)

  free_of_zero : (b : Bool) → one_if b ≡ 0 → b ≡ false
  free_of_zero true h = absurd (omega arith)
  free_of_zero false h = refl

  module _ (mutex : MutexLaws c) (watch : WatchLaws c) where
    -- Whatever requests arrive and however they interleave, at most one of them at a time downloads
    -- an image or streams one to its client.
    pub one_transfer :
        (v n : c.Client) (actions : List (Action c))
        → total transfers (history c (start c v n) actions).tasks ≤ 1
    one_transfer v n actions =
        let inv = history-start-Inv c mutex watch v n actions in
        omega (
          arith,
          total_mono transfers (guards c) (IsTidy c) (history c (start c v n) actions).tasks
              transfers-le-guards inv.tidy,
          inv.exclusive,
          one_if-le (mutex.locked (history c (start c v n) actions).app.import_lock),
        )

    -- The lock is free where no request is active.
    pub ended-free :
        (s : Server c)
        → Inv c mutex s
        → total (active c) s.tasks ≡ 0
        → mutex.locked s.app.import_lock ≡ false
    ended-free s v ended =
        let few =
          total_mono (guards c) (active c) (λ _. Unit {0}) s.tasks (λ t _. guards-le-active t)
            (All-trivial s.tasks) in
        free_of_zero (mutex.locked s.app.import_lock) (omega (arith, few, ended, v.exclusive))

    -- After any history in which every request has ended, by completion, failure or disconnection,
    -- the import lock is free and the count of active requests is 0.
    pub nothing_leaks :
        (v n : c.Client) (actions : List (Action c))
        → total (active c) (history c (start c v n) actions).tasks ≡ 0
        → (mutex.locked (history c (start c v n) actions).app.import_lock ≡ false)
          × (c.borrow (history c (start c v n) actions).activity ≡ 0)
    nothing_leaks v n actions ended =
        let inv = history-start-Inv c mutex watch v n actions in
        (ended-free (history c (start c v n) actions) inv ended, inv.counted ∙ (rw ended refl))

    -- In a valid state, dropping the task that owns the guard, whatever it is doing, frees the import
    -- lock.
    pub drop_frees_lock :
        (s : Server c) (i : ℕ) (t : Task c)
        → Inv c mutex s
        → get_elem? s.tasks i ≡ some t
        → guards c t ≡ 1
        → mutex.locked (step c s (drops i)).app.import_lock ≡ false
    drop_frees_lock s i t v e owner =
        let (_, gives_back, _) = drops-release c mutex watch s i t v e in
        free_of_zero (mutex.locked (step c s (drops i)).app.import_lock)
          (omega (arith, gives_back, owner, one_if-le (mutex.locked s.app.import_lock)))
