-- ===== src/Async.antt =====
-- The handler's `async` code as a resumption: it runs until it awaits an upstream response, and
-- everything between two awaits happens at once, as on the single-threaded runtime.
pub mod Run
pub mod Discipline
use xoa_proxy.Prelude.{Bool}
use xoa_proxy.Rust.Text.{Text}
use xoa_proxy.Rust.Result.{Result, ok, err}
use xoa_proxy.Crates.{Crates}
use xoa_proxy.Log.{Line}

pub data Method : Type 0 where
  head get : Method

-- A request that is sent upstream, with the value of its `Accept-Encoding` header.
pub record UpstreamRequest (c : Crates) : Type 0 where
  pub method : Method
  pub client : c.Client
  pub url : Text
  pub accept_encoding : Text

-- `done` and `fail` are the two results of a function that returns `Result<A, E>`.
-- `send` is an await: another request may run before the response arrives.
-- `try_lock` takes the import lock, if it is free; `drop_guard` is where Rust drops the guard; `log`
-- is a statement that logs.
pub data Async (c : Crates) (E A : Type 0) : Type 0 where
  done : A → Async c E A
  fail : E → Async c E A
  send : UpstreamRequest c → (Result c.Error c.Response → Async c E A) → Async c E A
  try_lock : (Bool → Async c E A) → Async c E A
  drop_guard : Async c E A → Async c E A
  log : Line → Async c E A → Async c E A

-- `.await?`
infixl 5 ◌>>=◌ ◌>>◌
abbrev pub ◌>>=◌ : {c : Crates} {E A B : Type 0} → Async c E A → (A → Async c E B) → Async c E B
done a >>= f = f a
fail e >>= f = fail e
send q k >>= f = send q (λ r. k r >>= f)
try_lock k >>= f = try_lock (λ b. k b >>= f)
drop_guard m >>= f = drop_guard (m >>= f)
log l m >>= f = log l (m >>= f)

abbrev pub ◌>>◌ : {c : Crates} {E B : Type 0} → Async c E (Unit {0}) → Async c E B → Async c E B
m >> k = m >>= λ _. k

-- `.await.map_err(f)`, where `f` may log before it answers the new error.
abbrev pub map_err : {c : Crates} {E F A : Type 0} → (E → Async c F A) → Async c E A → Async c F A
map_err f (done a) = done a
map_err f (fail e) = f e
map_err f (send q k) = send q (λ r. map_err f (k r))
map_err f (try_lock k) = try_lock (λ b. map_err f (k b))
map_err f (drop_guard m) = drop_guard (map_err f m)
map_err f (log l m) = log l (map_err f m)

-- A result that is at hand.
abbrev pub lift : {c : Crates} {E A : Type 0} → Result E A → Async c E A
lift (ok a) = done a
lift (err e) = fail e

-- `.send().await`
abbrev pub await_send :
    {c : Crates} {E : Type 0} → UpstreamRequest c → Async c E (Result c.Error c.Response)
await_send q = send q (λ r. done r)

abbrev pub log_line : {c : Crates} {E : Type 0} → Line → Async c E (Unit {0})
log_line l = log l (done tt)
