-- ===== src/Server/Lines.antt =====
-- What a server logs: the handler's lines, those of `into_response`, and those of the streams.
pub mod Advance
pub mod Steps
pub mod Ledger
pub mod Ending
use xoa_proxy.Prelude.{
  ℕ, ◌+◌, Bool, true, false, Option, none, some, List, [], ◌∷◌, ◌++◌, length, get_elem?,
  if◌then◌else◌,
}
use xoa_proxy.Rust.Text.{Text}
use xoa_proxy.Rust.Result.{Result, ok, err}
use xoa_proxy.Crates.{Crates}
use xoa_proxy.Log.{Line, finished, http_error}
use xoa_proxy.Error.{ProxyError, into_response, error_line}
use xoa_proxy.Async.{Async, done, fail, send, try_lock, drop_guard, log}
use xoa_proxy.Stream.{poll_log}
use xoa_proxy.Stream.Report.{drop}
use xoa_proxy.Handler.{ImageResponse}
use xoa_proxy.Handler.Course.{Mark, acquired, http_failure, plain, mark}
use xoa_proxy.Server.{
  Task, awaiting, responding, rejected, gone, Server, Action, arrives, rejects, answers, polls,
  drops, serve, step,
}
use xoa_proxy.Server.Count.{one_if}

module _ (c : Crates) where
  -- What `advance` logs. An error that the handler returns is turned into a response at once.
  unfoldable pub says : c.Mutex → Async c ProxyError (ImageResponse c) → List Line
  says m (done response) = []
  says m (fail e) = error_line e ∷ []
  says m (send q k) = []
  says m (try_lock k) = elim (c.try_lock_owned m) [
    | none ↦ says m (k false)
    | some locked ↦ says locked (k true)
  ]
  says m (drop_guard p) = says (c.drop_guard m) p
  says m (log l p) = l ∷ says m p

  unfoldable pub resume_log : c.Mutex → Result c.Error c.Response → Task c → List Line
  unfolding says
  resume_log m r (awaiting held q k) = says m (k r)
  resume_log m r (responding reply) = []
  resume_log m r (rejected status) = []
  resume_log m r gone = []

  unfoldable pub poll_body_log : Task c → List Line
  poll_body_log (responding (ok response)) = poll_log c response.body
  poll_body_log (responding (err e)) = []
  poll_body_log (awaiting held q k) = []
  poll_body_log (rejected status) = []
  poll_body_log gone = []

  -- A handler that is dropped while it waits logs nothing, whether or not it owns the guard.
  unfoldable pub release_log : Task c → List Line
  release_log (responding (ok response)) = finished (drop c response.body) ∷ []
  release_log (responding (err e)) = []
  release_log (awaiting held q k) = []
  release_log (rejected status) = []
  release_log gone = []

  abbrev pub task_log : Server c → ℕ → (Task c → List Line) → List Line
  task_log s i f = elim (get_elem? s.tasks i) [ none ↦ [] | some task ↦ f task ]

  unfoldable pub step_log : Server c → Action c → List Line
  unfolding resume_log poll_body_log release_log
  step_log s (arrives call) = says s.app.import_lock (serve c s.app call)
  step_log s (rejects status) = []
  step_log s (answers i r) = task_log s i (resume_log s.app.import_lock r)
  step_log s (polls i) = task_log s i poll_body_log
  step_log s (drops i) = task_log s i release_log

  unfoldable pub history_log : Server c → List (Action c) → List Line
  history_log s [] = []
  history_log s (a ∷ rest) = step_log s a ++ history_log (step c s a) rest

-- The lines that tell of a taken lock.
abbrev pub count_mark : Mark → ℕ → ℕ
count_mark acquired n = n + 1
count_mark http_failure n = n
count_mark plain n = n

abbrev pub acquired_lines : List Line → ℕ
acquired_lines [] = 0
acquired_lines (l ∷ lines) = count_mark (mark l) (acquired_lines lines)

-- The errors that the lines tell of.
abbrev pub error_of_line : Line → List (ℕ × Text)
error_of_line (http_error status detail) = (status, detail) ∷ []
error_of_line _ = []

abbrev pub error_lines : List Line → List (ℕ × Text)
error_lines [] = []
error_lines (l ∷ lines) = error_of_line l ++ error_lines lines

-- The lock is taken where it is free before, and locked after.
abbrev pub takes : Bool → Bool → ℕ
takes before after = if before then 0 else one_if after

module _ {c : Crates} where
  abbrev pub is_answered : Option (Task c) → Bool
  is_answered none = false
  is_answered (some (responding reply)) = true
  is_answered (some (awaiting held q k)) = false
  is_answered (some (rejected status)) = false
  is_answered (some gone) = false

  -- The error that a task sends, as its client gets it.
  abbrev pub error_of_task : Option (Task c) → List (ℕ × Text)
  error_of_task none = []
  error_of_task (some (responding (err e))) = into_response e ∷ []
  error_of_task (some (responding (ok response))) = []
  error_of_task (some (awaiting held q k)) = []
  error_of_task (some (rejected status)) = []
  error_of_task (some gone) = []

  abbrev pub becomes : Option (Task c) → Option (Task c) → List (ℕ × Text)
  becomes before after = if is_answered before then [] else error_of_task after

module _ (c : Crates) where
  -- The request that an action concerns.
  abbrev pub concerns : Server c → Action c → ℕ
  concerns s (arrives call) = length s.tasks
  concerns s (rejects status) = length s.tasks
  concerns s (answers i r) = i
  concerns s (polls i) = i
  concerns s (drops i) = i

  -- The error that an action makes its request's answer.
  abbrev pub refusals : Server c → Action c → List (ℕ × Text)
  refusals s a =
      let i = concerns s a in becomes (get_elem? s.tasks i) (get_elem? (step c s a).tasks i)
