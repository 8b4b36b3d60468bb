-- ===== src/Async/Run.antt =====
-- A request that is alone on the server, against an upstream that answers by a function.
use xoa_proxy.Prelude.{true, false, none, some}
use xoa_proxy.Rust.Result.{Result, ok, err}
use xoa_proxy.Crates.{Crates}
use xoa_proxy.Async.{UpstreamRequest, Async, done, fail, send, try_lock, drop_guard, log}

-- The result of the code, and the import lock when it returns.
unfoldable pub run :
    {c : Crates} {E A : Type 0}
    → (UpstreamRequest c → Result c.Error c.Response)
    → c.Mutex
    → Async c E A
    → Result E A × c.Mutex
run upstream m (done a) = (ok a, m)
run upstream m (fail e) = (err e, m)
run upstream m (send q k) = run upstream m (k (upstream q))
run {c} upstream m (try_lock k) = elim (c.try_lock_owned m) [
  | none ↦ run upstream m (k false)
  | some held ↦ run upstream held (k true)
]
run {c} upstream m (drop_guard p) = run upstream (c.drop_guard m) p
run upstream m (log l p) = run upstream m p
