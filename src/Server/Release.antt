-- ===== src/Server/Release.antt =====
-- What the drop of a request gives back.
use xoa_proxy.Prelude.{
  ℕ, ◌+◌, ◌-◌, ◌%◌, ◌≡◌, refl, ap, sym, ◌∙◌, some, arith, get_elem?, set, set_self,
}
use xoa_proxy.Rust.Result.{ok, err}
use xoa_proxy.Crates.{Crates}
use xoa_proxy.Crates.Laws.{MutexLaws, WatchLaws}
use xoa_proxy.Lifecycle.Activity.{usize_mod}
use xoa_proxy.Server.Count.{one_if, total, total-set}
use xoa_proxy.Server.{
  Task, awaiting, responding, rejected, gone, Server, drops, release, step, at_task,
}
use xoa_proxy.Server.Invariant.{guards, active, Inv}
use xoa_proxy.Server.Steps.{step-Inv}

module _ (c : Crates) where
  pub release-tasks :
      (s : Server c) (i : ℕ) (t : Task c)
      → get_elem? s.tasks i ≡ some t
      → (release c s i t).tasks ≡ set s.tasks i gone
  unfolding release
  release-tasks s i (awaiting held q k) e = refl
  release-tasks s i (responding (ok response)) e = refl
  release-tasks s i (responding (err x)) e = refl
  release-tasks s i (rejected status) e = refl
  release-tasks s i gone e = sym (set_self s.tasks i gone e)

  drops-tasks :
      (s : Server c) (i : ℕ) (t : Task c)
      → get_elem? s.tasks i ≡ some t
      → (step c s (drops i)).tasks ≡ set s.tasks i gone
  unfolding step
  drops-tasks s i t e = rw (e, at_task) (release-tasks s i t e)

  -- In a valid state, dropping a request, whatever it is doing, gives back exactly what it owns. The
  -- other requests stay as they are; the import lock becomes free if the request owns the guard, and
  -- stays as it is if not; and the counter is the number of the active requests without this one, if
  -- it was active, modulo 2 ^ 64.
  pub drops-release :
      (mutex : MutexLaws c) (watch : WatchLaws c) (s : Server c) (i : ℕ) (t : Task c)
      → Inv c mutex s
      → get_elem? s.tasks i ≡ some t
      → ((step c s (drops i)).tasks ≡ set s.tasks i gone)
        × (one_if (mutex.locked (step c s (drops i)).app.import_lock) + guards c t
            ≡ one_if (mutex.locked s.app.import_lock))
        × (c.borrow (step c s (drops i)).activity
            ≡ (total (active c) s.tasks - active c t) % usize_mod)
  drops-release mutex watch s i t v e =
      let tasks = drops-tasks s i t e in
      let valid : Inv c mutex (step c s (drops i)) = step-Inv c mutex watch s (drops i) v in
      let fewer : total (active c) (step c s (drops i)).tasks
          ≡ total (active c) s.tasks - active c t =
        ap (total (active c)) tasks ∙ omega (arith, total-set (active c) s.tasks i t gone e) in
      (
        tasks,
        omega (
          arith,
          valid.exclusive,
          v.exclusive,
          ap (total (guards c)) tasks,
          total-set (guards c) s.tasks i t gone e,
        ),
        valid.counted ∙ ap (λ n. n % usize_mod) fewer,
      )
