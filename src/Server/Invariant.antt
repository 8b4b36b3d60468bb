-- ===== src/Server/Invariant.antt =====
-- What holds of a server after any interleaving of requests, upstream answers and disconnections.
use xoa_proxy.Prelude.{
  ℕ, ◌+◌, ◌%◌, ◌≡◌, refl, inl, inr, Bool, true, false, Bool-cases, [], ◌∷◌, arith,
}
use xoa_proxy.Rust.Result.{ok, err}
use xoa_proxy.Crates.{Crates}
use xoa_proxy.Crates.Laws.{MutexLaws, WatchLaws}
use xoa_proxy.Error.{ProxyError}
use xoa_proxy.Async.{Async, done, fail, send, try_lock, drop_guard, log}
use xoa_proxy.Async.Discipline.{Keeps, Keeps-mono}
use xoa_proxy.Lifecycle.Activity.{usize_mod, enter, leave, increment-mod, decrement-mod}
use xoa_proxy.Handler.{ImageResponse, handle_image_xva}
use xoa_proxy.Handler.Traffic.{LockFits, Permitted, handle_image_xva-Keeps}
use xoa_proxy.Server.Count.{one_if, total, total-append, All, All-append}
use xoa_proxy.Server.{
  Call, image, unknown_path, Task, awaiting, responding, rejected, gone, Server, serve, advance,
  arrive,
}

module _ (c : Crates) where
  -- The guards of the import lock that a task owns.
  abbrev pub guards : Task c → ℕ
  guards (awaiting held q k) = one_if held
  guards (responding (ok response)) = 1
  guards (responding (err e)) = 0
  guards (rejected status) = 0
  guards gone = 0

  -- The `ActiveRequest`s that a task owns.
  abbrev pub active : Task c → ℕ
  active gone = 0
  active (awaiting held q k) = 1
  active (responding reply) = 1
  active (rejected status) = 1

  -- The rest of a handler keeps the discipline of the import lock.
  abbrev pub IsTidy : Task c → Type 0
  IsTidy (awaiting held q k) = Keeps (λ held q. LockFits c held q.method) true held (send q k)
  IsTidy (responding reply) = Unit
  IsTidy (rejected status) = Unit
  IsTidy gone = Unit

  module _ (mutex : MutexLaws c) where
    -- One step of the handler: `others` are the guards that other tasks own.
    pub advance_lem :
        (m : c.Mutex) (held : Bool) (p : Async c ProxyError (ImageResponse c)) (others : ℕ)
        → Keeps (λ held q. LockFits c held q.method) true held p
        → others + one_if held ≡ one_if (mutex.locked m)
        → let (m', t) = advance c m held p in
          (others + guards t ≡ one_if (mutex.locked m')) × IsTidy t × (active t ≡ 1)
    unfolding advance
    advance_lem m held (done a) others k h = (rw k at h, tt, refl)
    advance_lem m held (fail e) others k h = (rw k at h, tt, refl)
    advance_lem m held (send q k) others (p, r) h = (h, (p, r), refl)
    advance_lem m held (try_lock k) others (free, won, lost) h =
        elim (Bool-cases (mutex.locked m)) [
          | inl busy ↦
              rw (mutex.try_held m busy, advance)
                (advance_lem m held (k false) others (rw free lost) h)
          | inr idle ↦
              let (m', got, taken) = mutex.try_free m idle in
              rw (got, advance) (advance_lem m' true (k true) others won (ground arith))
        ]
    advance_lem m held (drop_guard p) others (owns, r) h =
        advance_lem (c.drop_guard m) false p others r (ground (arith, mutex.drop_frees m))
    advance_lem m held (log l p) others k h = advance_lem m held p others k h

    pub serve-Keeps :
        (s : Server c) (call : Call)
        → Keeps (λ held q. LockFits c held q.method) true false (serve c s.app call)
    unfolding serve
    serve-Keeps s (image params) =
        Keeps-mono (Permitted c s.app params) (λ held q. LockFits c held q.method)
          (λ held q (src, named, scheme, allowed). allowed.0) true false
          (handle_image_xva c s.app params) (handle_image_xva-Keeps c s.app params)
    serve-Keeps s (unknown_path path) = refl

    -- Every handler keeps the discipline; the guards that the tasks own are one if the import lock
    -- is locked, and none if it is free; the counter is the number of active requests, as far as a
    -- `usize` can count.
    pub record Inv (s : Server c) : Type 0 where
      pub tidy : All IsTidy s.tasks
      pub exclusive : total guards s.tasks ≡ one_if (mutex.locked s.app.import_lock)
      pub counted : c.borrow s.activity ≡ total active s.tasks % usize_mod

    module _ (watch : WatchLaws c) where
      pub enter_lem :
          (a : c.Sender) (n : ℕ)
          → c.borrow a ≡ n % usize_mod
          → c.borrow (enter c a) ≡ (n + 1) % usize_mod
      unfolding enter
      enter_lem a n h = rw (watch.borrow_modify, h) (increment-mod n)

      pub leave_lem :
          (a : c.Sender) (n : ℕ)
          → c.borrow a ≡ (n + 1) % usize_mod
          → c.borrow (leave c a) ≡ n % usize_mod
      unfolding leave
      leave_lem a n h = rw (watch.borrow_modify, h) (decrement-mod n)

      pub arrive-Inv : (s : Server c) (call : Call) → Inv s → Inv (arrive c s call)
      unfolding arrive
      arrive-Inv s call v =
          let (guarded, tidy, alive) =
            advance_lem s.app.import_lock false (serve c s.app call) (total guards s.tasks)
              (serve-Keeps s call) (omega (arith, v.exclusive)) in
          let task : Task c = (advance c s.app.import_lock false (serve c s.app call)).1 in
          record {
            tidy = All-append IsTidy s.tasks (task ∷ []) v.tidy (tidy, tt);
            exclusive = omega (arith, total-append guards s.tasks (task ∷ []), guarded);
            counted =
                rw (total-append active s.tasks (task ∷ []), alive)
                  (enter_lem s.activity (total active s.tasks) v.counted);
          }
