-- ===== src/Server.antt =====
-- The requests that one proxy serves at the same time: the handler of src/handler.rs under the
-- middleware `track` of src/lifecycle.rs, for any interleaving of the requests.
pub mod Count
pub mod Invariant
pub mod Steps
pub mod Release
pub mod Imports
pub mod Admission
pub mod Isolation
pub mod Awaiting
pub mod Service
pub mod Probing
pub mod Phases
pub mod Refinement
pub mod Lines
use xoa_proxy.Prelude.{
  ℕ, Bool, true, false, Option, none, some, List, [], ◌∷◌, ◌++◌, get_elem?, set, if◌then◌else◌,
}
use xoa_proxy.Rust.Text.{Text}
use xoa_proxy.Rust.Result.{Result, ok, err}
use xoa_proxy.Crates.{Crates}
use xoa_proxy.Error.{ProxyError}
use xoa_proxy.Async.{UpstreamRequest, Async, done, fail, send, try_lock, drop_guard, log}
use xoa_proxy.State.{AppState}
use xoa_proxy.Stream.{GuardedStream, poll_next}
use xoa_proxy.Lifecycle.Activity.{new_activity, enter, leave}
use xoa_proxy.Handler.{ImageParams, ImageResponse, handle_image_xva, handle_not_found}

-- A request as the router hands it on.
pub data Call : Type 0 where
  image : ImageParams → Call
  unknown_path : Text → Call

module _ (c : Crates) where
  -- A request from its arrival to the drop of its body. Each state but `gone` owns an
  -- `ActiveRequest`; a stream that is being sent owns the guard of the import lock.
  pub data Task : Type 0 where
    awaiting :
        (held : Bool)
        → UpstreamRequest c
        → (Result c.Error c.Response → Async c ProxyError (ImageResponse c))
        → Task
    responding : Result ProxyError (ImageResponse c) → Task
    rejected : ℕ → Task  -- the router's own answer, with this status
    gone : Task

  pub record Server : Type 0 where
    pub app : AppState c
    pub activity : c.Sender
    pub tasks : List Task

  pub data Action : Type 0 where
    arrives : Call → Action
    rejects : ℕ → Action  -- a request arrives that the router answers by itself, with this status
    answers : ℕ → Result c.Error c.Response → Action  -- the upstream, to the request of a task
    polls : ℕ → Action  -- the body of a task, by the connection
    drops : ℕ → Action  -- a task: its body is complete, or its client has gone

  -- The router's handlers.
  unfoldable pub serve : AppState c → Call → Async c ProxyError (ImageResponse c)
  serve state (image params) = handle_image_xva c state params
  serve state (unknown_path path) = fail (handle_not_found path)

  -- The handler's code up to its next await, or to its end.
  unfoldable pub advance : c.Mutex → Bool → Async c ProxyError (ImageResponse c) → c.Mutex × Task
  advance m held (done response) = (m, responding (ok response))
  advance m held (fail e) = (m, responding (err e))
  advance m held (send q k) = (m, awaiting held q k)
  advance m held (try_lock k) = elim (c.try_lock_owned m) [
    | none ↦ advance m held (k false)
    | some locked ↦ advance locked true (k true)
  ]
  advance m held (drop_guard p) = advance (c.drop_guard m) false p
  advance m held (log l p) = advance m held p

  abbrev pub with_lock : Server → c.Mutex → AppState c
  with_lock s m = record (s.app) { import_lock = m }

  -- `track`: the request is active before the handler runs.
  unfoldable pub arrive : Server → Call → Server
  unfolding serve
  arrive s call =
      let (m, task) = advance s.app.import_lock false (serve s.app call) in
      record s { app = with_lock s m; activity = enter c s.activity; tasks = s.tasks ++ task ∷ [] }

  -- `track` covers the whole router, and so the requests that no handler sees.
  unfoldable pub reject : Server → ℕ → Server
  reject s status = record s {
    activity = enter c s.activity;
    tasks = s.tasks ++ rejected status ∷ [];
  }

  unfoldable pub resume : Server → ℕ → Result c.Error c.Response → Task → Server
  resume s i r (awaiting held q k) =
      let (m, task) = advance s.app.import_lock held (k r) in
      record s { app = with_lock s m; tasks = set s.tasks i task }
  resume s i r (responding reply) = s
  resume s i r (rejected status) = s
  resume s i r gone = s

  -- `ActiveBody::poll_frame` polls the body inside.
  unfoldable pub poll_body : Task → Task
  poll_body (responding (ok response)) =
      responding (ok (record response { body = (poll_next c response.body).1 }))
  poll_body (responding (err e)) = responding (err e)
  poll_body (awaiting held q k) = awaiting held q k
  poll_body (rejected status) = rejected status
  poll_body gone = gone

  -- What the task owns is dropped: the guard of the import lock, if it has it, and `ActiveRequest`.
  unfoldable pub release : Server → ℕ → Task → Server
  release s i (awaiting held q k) = record s {
    app = with_lock s (if held then c.drop_guard s.app.import_lock else s.app.import_lock);
    activity = leave c s.activity;
    tasks = set s.tasks i gone;
  }
  release s i (responding (ok response)) = record s {
    app = with_lock s (c.drop_guard s.app.import_lock);
    activity = leave c s.activity;
    tasks = set s.tasks i gone;
  }
  release s i (responding (err e)) = record s {
    activity = leave c s.activity;
    tasks = set s.tasks i gone;
  }
  release s i (rejected status) = record s {
    activity = leave c s.activity;
    tasks = set s.tasks i gone;
  }
  release s i gone = s

  -- An action on a task that does not exist does nothing.
  abbrev pub at_task : Server → ℕ → (Task → Server) → Server
  at_task s i f = elim (get_elem? s.tasks i) [ none ↦ s | some task ↦ f task ]

  unfoldable pub step : Server → Action → Server
  step s (arrives call) = arrive s call
  step s (rejects status) = reject s status
  step s (answers i r) = at_task s i (resume s i r)
  step s (polls i) = at_task s i (λ task. record s { tasks = set s.tasks i (poll_body task) })
  step s (drops i) = at_task s i (release s i)

  unfoldable pub history : Server → List Action → Server
  history s [] = s
  history s (a ∷ rest) = history (step s a) rest

  -- The state that `main` builds, with the two clients at hand.
  unfoldable pub start : c.Client → c.Client → Server
  start client_verify client_no_verify = record {
    app = record {
      client_verify = client_verify;
      client_no_verify = client_no_verify;
      import_lock = c.new_mutex;
    };
    activity = new_activity c;
    tasks = [];
  }
