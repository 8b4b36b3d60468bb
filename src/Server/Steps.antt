-- ===== src/Server/Steps.antt =====
-- Every step of a server keeps the invariant, and so does any history.
use xoa_proxy.Prelude.{
  ℕ, ◌+◌, ◌%◌, ◌≡◌, refl, ◌∙◌, inl, inr, Bool, true, false, some, Option-cases, List, [], ◌∷◌,
  arith, get_elem?, set,
}
use xoa_proxy.Rust.Result.{Result, ok, err}
use xoa_proxy.Crates.{Crates}
use xoa_proxy.Crates.Laws.{MutexLaws, WatchLaws}
use xoa_proxy.Error.{ProxyError}
use xoa_proxy.Async.{UpstreamRequest, Async}
use xoa_proxy.Lifecycle.Activity.{usize_mod, leave, new_activity}
use xoa_proxy.Handler.{ImageResponse}
use xoa_proxy.Server.Count.{total, total-append, total-set, All-append, All-set, All-get}
use xoa_proxy.Server.{
  Task, awaiting, responding, rejected, gone, Server, Action, arrives, rejects, reject, answers,
  polls, drops, advance, resume, poll_body, release, step, history, start, at_task,
}
use xoa_proxy.Server.Invariant.{
  guards, active, IsTidy, advance_lem, Inv, enter_lem, leave_lem, arrive-Inv,
}

module _ (c : Crates) (mutex : MutexLaws c) (watch : WatchLaws c) where
  resume-Inv :
      (s : Server c) (i : ℕ) (r : Result c.Error c.Response) (t : Task c)
      → get_elem? s.tasks i ≡ some t
      → Inv c mutex s
      → Inv c mutex (resume c s i r t)
  unfolding resume
  resume-Inv s i r (responding reply) e v = v
  resume-Inv s i r (rejected status) e v = v
  resume-Inv s i r gone e v = v
  resume-Inv s i r (awaiting held q k) e v =
      let task : Task c = (advance c s.app.import_lock held (k r)).1 in
      let others : ℕ = total (guards c) (set s.tasks i gone) in
      let left = total-set (guards c) s.tasks i (awaiting held q k) gone e in
      let (guarded, tidy, alive) =
        advance_lem c mutex s.app.import_lock held (k r) others
          ((All-get (IsTidy c) s.tasks i _ v.tidy e).1 r) (omega (arith, left, v.exclusive)) in
      record {
        tidy = All-set (IsTidy c) s.tasks i task v.tidy tidy;
        exclusive =
            omega (arith, left, total-set (guards c) s.tasks i (awaiting held q k) task e, guarded);
        counted = rw (resumed-active s.tasks i held q k task e alive) v.counted;
      }
    where
      resumed-active :
          (tasks : List (Task c)) (i : ℕ) (held : Bool) (q : UpstreamRequest c)
          (k : Result c.Error c.Response → Async c ProxyError (ImageResponse c)) (task : Task c)
          → get_elem? tasks i ≡ some (awaiting held q k)
          → active c task ≡ 1
          → total (active c) (set tasks i task) ≡ total (active c) tasks
      resumed-active tasks i held q k task e alive =
          omega (arith, total-set (active c) tasks i (awaiting held q k) task e)

  -- Polling a body changes what a task owns in no way.
  poll_body-keeps :
      (t : Task c)
      → (guards c (poll_body c t) ≡ guards c t)
        × (active c (poll_body c t) ≡ active c t)
        × (IsTidy c t → IsTidy c (poll_body c t))
  unfolding poll_body
  poll_body-keeps (awaiting held q k) = (refl, refl, λ h. h)
  poll_body-keeps (responding (ok response)) = (refl, refl, λ h. h)
  poll_body-keeps (responding (err e)) = (refl, refl, λ h. h)
  poll_body-keeps (rejected status) = (refl, refl, λ h. h)
  poll_body-keeps gone = (refl, refl, λ h. h)

  polled-Inv :
      (s : Server c) (i : ℕ) (t : Task c)
      → get_elem? s.tasks i ≡ some t
      → Inv c mutex s
      → Inv c mutex (record s { tasks = set s.tasks i (poll_body c t) })
  polled-Inv s i t e v =
      let (same_guards, same_active, tidy) = poll_body-keeps t in
      let locks : total (guards c) (set s.tasks i (poll_body c t)) ≡ total (guards c) s.tasks =
        omega (arith, total-set (guards c) s.tasks i t (poll_body c t) e, same_guards) in
      let count : total (active c) (set s.tasks i (poll_body c t)) ≡ total (active c) s.tasks =
        omega (arith, total-set (active c) s.tasks i t (poll_body c t) e, same_active) in
      record {
        tidy =
            All-set (IsTidy c) s.tasks i _ v.tidy (tidy (All-get (IsTidy c) s.tasks i t v.tidy e));
        exclusive = locks ∙ v.exclusive;
        counted = rw count v.counted;
      }

  -- The counter after a live task is dropped.
  released-counted :
      (s : Server c) (i : ℕ) (t : Task c)
      → get_elem? s.tasks i ≡ some t
      → active c t ≡ 1
      → c.borrow s.activity ≡ total (active c) s.tasks % usize_mod
      → c.borrow (leave c s.activity) ≡ total (active c) (set s.tasks i gone) % usize_mod
  released-counted s i t e alive h =
      let left : total (active c) s.tasks ≡ total (active c) (set s.tasks i gone) + 1 =
        omega (arith, total-set (active c) s.tasks i t gone e, alive) in
      leave_lem c mutex watch s.activity _ (rw (← left) h)

  release-Inv :
      (s : Server c) (i : ℕ) (t : Task c)
      → get_elem? s.tasks i ≡ some t
      → Inv c mutex s
      → Inv c mutex (release c s i t)
  unfolding release
  release-Inv s i (awaiting true q k) e v = record {
    tidy = All-set (IsTidy c) s.tasks i gone v.tidy tt;
    exclusive = ground (
      arith,
      total-set (guards c) s.tasks i (awaiting true q k) gone e,
      v.exclusive,
      mutex.drop_frees s.app.import_lock,
    );
    counted = released-counted s i (awaiting true q k) e refl v.counted;
  }
  release-Inv s i (awaiting false q k) e v = record {
    tidy = All-set (IsTidy c) s.tasks i gone v.tidy tt;
    exclusive =
        omega (arith, total-set (guards c) s.tasks i (awaiting false q k) gone e, v.exclusive);
    counted = released-counted s i (awaiting false q k) e refl v.counted;
  }
  release-Inv s i (responding (ok response)) e v = record {
    tidy = All-set (IsTidy c) s.tasks i gone v.tidy tt;
    exclusive = ground (
      arith,
      total-set (guards c) s.tasks i (responding (ok response)) gone e,
      v.exclusive,
      mutex.drop_frees s.app.import_lock,
    );
    counted = released-counted s i (responding (ok response)) e refl v.counted;
  }
  release-Inv s i (responding (err x)) e v = record {
    tidy = All-set (IsTidy c) s.tasks i gone v.tidy tt;
    exclusive =
        omega (arith, total-set (guards c) s.tasks i (responding (err x)) gone e, v.exclusive);
    counted = released-counted s i (responding (err x)) e refl v.counted;
  }
  release-Inv s i (rejected status) e v = record {
    tidy = All-set (IsTidy c) s.tasks i gone v.tidy tt;
    exclusive = omega (arith, total-set (guards c) s.tasks i (rejected status) gone e, v.exclusive);
    counted = released-counted s i (rejected status) e refl v.counted;
  }
  release-Inv s i gone e v = v

  reject-Inv : (s : Server c) (status : ℕ) → Inv c mutex s → Inv c mutex (reject c s status)
  unfolding reject
  reject-Inv s status v = record {
    tidy = All-append (IsTidy c) s.tasks (rejected status ∷ []) v.tidy (tt, tt);
    exclusive = omega (arith, total-append (guards c) s.tasks (rejected status ∷ []), v.exclusive);
    counted =
        rw (total-append (active c) s.tasks (rejected status ∷ []))
          (enter_lem c mutex watch s.activity (total (active c) s.tasks) v.counted);
  }

  at_task-Inv :
      (s : Server c) (i : ℕ) (f : Task c → Server c)
      → Inv c mutex s
      → ((t : Task c) → get_elem? s.tasks i ≡ some t → Inv c mutex (f t))
      → Inv c mutex (at_task c s i f)
  at_task-Inv s i f v h = elim (Option-cases (get_elem? s.tasks i)) [
    | inl missing ↦ rw (missing, at_task) v
    | inr (t, e) ↦ rw (e, at_task) (h t e)
  ]

  pub step-Inv : (s : Server c) (a : Action c) → Inv c mutex s → Inv c mutex (step c s a)
  unfolding step
  step-Inv s (arrives call) v = arrive-Inv c mutex watch s call v
  step-Inv s (rejects status) v = reject-Inv s status v
  step-Inv s (answers i r) v = at_task-Inv s i _ v (λ t e. resume-Inv s i r t e v)
  step-Inv s (polls i) v = at_task-Inv s i _ v (λ t e. polled-Inv s i t e v)
  step-Inv s (drops i) v = at_task-Inv s i _ v (λ t e. release-Inv s i t e v)

  pub start-Inv : (v n : c.Client) → Inv c mutex (start c v n)
  unfolding start new_activity
  start-Inv v n = record {
    tidy = tt;
    exclusive = rw mutex.new_free;
    counted = watch.borrow_channel 0;
  }

  pub history-Inv :
      (s : Server c) (actions : List (Action c)) → Inv c mutex s → Inv c mutex (history c s actions)
  unfolding history
  history-Inv s [] v = v
  history-Inv s (a ∷ rest) v = history-Inv (step c s a) rest (step-Inv s a v)

  -- Every state that a server reaches is valid, whatever requests arrive, however their upstream
  -- requests and bodies interleave, and whenever clients disconnect: the rest of every handler keeps
  -- the discipline of the import lock, the tasks own one guard if the lock is locked and none if it
  -- is free, and the counter is the number of active requests modulo 2 ^ 64.
  pub history-start-Inv :
      (v n : c.Client) (actions : List (Action c)) → Inv c mutex (history c (start c v n) actions)
  history-start-Inv v n actions = history-Inv (start c v n) actions (start-Inv v n)
