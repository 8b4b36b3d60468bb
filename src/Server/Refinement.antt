-- ===== src/Server/Refinement.antt =====
-- The server refines the abstract proxy: step by step, its tasks go through the phases of requests.
pub mod Views
pub mod Bodies
pub mod Steps
pub mod Histories
pub mod Settling
use mathlib.Core.List.{map-append}
use xoa_proxy.Prelude.{
  ℕ, zero, suc, ◌+◌, ◌%◌, ◌≤◌, ◌≡◌, refl, ap, sym, ◌∙◌, ◌⊎◌, inl, inr, Bool, true, false, ◌||◌,
  Bool-cases, Option-cases, none, some, List, [], ◌∷◌, ◌++◌, map, arith, get_elem?, set,
}
use xoa_proxy.Rust.Result.{Result, ok, err}
use xoa_proxy.Crates.{Crates}
use xoa_proxy.Crates.Laws.{MutexLaws, WatchLaws}
use xoa_proxy.Error.{ProxyError}
use xoa_proxy.Async.{Async, done, fail, send, try_lock, drop_guard, log}
use xoa_proxy.Lifecycle.Activity.{usize_mod}
use xoa_proxy.Handler.{ImageResponse, handle_not_found}
use xoa_proxy.Handler.Course.{
  IsRefusal, Locks, Starts, Finishes, Acquires, Connects, handle_image_xva-Starts,
}
use xoa_proxy.Server.{
  Call, image, unknown_path, Task, awaiting, responding, rejected, gone, Server, Action, arrives,
  rejects, answers, polls, drops, serve, advance, arrive, resume, poll_body, release, step, history,
  start, at_task,
}
use xoa_proxy.Server.Count.{one_if, total, All, All-append, All-set, All-get}
use xoa_proxy.Server.Invariant.{guards, active, Inv}
use xoa_proxy.Server.Steps.{step-Inv, start-Inv}
use xoa_proxy.Server.Phases.{
  Phase, probing, connecting, streaming, refused, ended, is_importing, is_live, is_busy, count,
  Progress, admits, conflicts, streams, breaks, Begins, Awaits, Label, Move, Moves,
}

module _ (c : Crates) where
  abbrev pub phase : Task c → Phase
  phase (awaiting false q k) = probing
  phase (awaiting true q k) = connecting
  phase (responding (ok response)) = streaming
  phase (responding (err e)) = refused e
  phase (rejected status) = Phase.rejected
  phase gone = ended

  abbrev pub view : List (Task c) → List Phase
  view = map phase

  abbrev pub label : Action c → Label
  label (arrives call) = Label.arrival
  label (rejects status) = Label.arrival
  label (answers i r) = Label.answer i
  label (polls i) = Label.poll
  label (drops i) = Label.leaving i

  -- The rest of a task's handler keeps to the course of the handler.
  abbrev pub IsOnCourse : Task c → Type 0
  IsOnCourse (awaiting false q k) = (r : Result c.Error c.Response) → Locks (k r)
  IsOnCourse (awaiting true q k) = (r : Result c.Error c.Response) → Finishes (k r)
  IsOnCourse (responding reply) = Unit
  IsOnCourse (rejected status) = Unit
  IsOnCourse gone = Unit

  advance-IsRefusal :
      (busy : Bool) (m : c.Mutex) (p : Async c ProxyError (ImageResponse c))
      → IsRefusal p
      → let t = (advance c m false p).1 in Progress busy connecting (phase t) × IsOnCourse t
  unfolding advance
  advance-IsRefusal busy m (fail e) h = (breaks h, tt)
  advance-IsRefusal busy m (log l p) (_, h) = advance-IsRefusal busy m p h
  advance-IsRefusal busy m (done a) h = elim h [ ]
  advance-IsRefusal busy m (send q k) h = elim h [ ]
  advance-IsRefusal busy m (try_lock k) h = elim h [ ]
  advance-IsRefusal busy m (drop_guard p) h = elim h [ ]

  advance-Finishes :
      (busy : Bool) (m : c.Mutex) (p : Async c ProxyError (ImageResponse c))
      → Finishes p
      → let t = (advance c m true p).1 in Progress busy connecting (phase t) × IsOnCourse t
  unfolding advance
  advance-Finishes busy m (done a) h = (streams, tt)
  advance-Finishes busy m (drop_guard p) h = advance-IsRefusal busy (c.drop_guard m) p h
  advance-Finishes busy m (log l p) (_, h) = advance-Finishes busy m p h
  advance-Finishes busy m (fail e) h = elim h [ ]
  advance-Finishes busy m (send q k) h = elim h [ ]
  advance-Finishes busy m (try_lock k) h = elim h [ ]

  advance-Connects :
      (m : c.Mutex) (p : Async c ProxyError (ImageResponse c))
      → Connects p
      → let t = (advance c m true p).1 in (phase t ≡ connecting) × IsOnCourse t
  unfolding advance
  advance-Connects m (send q k) h = (refl, h)
  advance-Connects m (log l p) (_, h) = advance-Connects m p h
  advance-Connects m (done a) h = elim h [ ]
  advance-Connects m (fail e) h = elim h [ ]
  advance-Connects m (try_lock k) h = elim h [ ]
  advance-Connects m (drop_guard p) h = elim h [ ]

  advance-Acquires :
      (m : c.Mutex) (p : Async c ProxyError (ImageResponse c))
      → Acquires p
      → let t = (advance c m true p).1 in (phase t ≡ connecting) × IsOnCourse t
  unfolding advance
  advance-Acquires m (log l p) (_, h) = advance-Connects m p h
  advance-Acquires m (done a) h = elim h [ ]
  advance-Acquires m (fail e) h = elim h [ ]
  advance-Acquires m (send q k) h = elim h [ ]
  advance-Acquires m (try_lock k) h = elim h [ ]
  advance-Acquires m (drop_guard p) h = elim h [ ]

  module _ (mutex : MutexLaws c) where
    advance-Locks :
        (m : c.Mutex) (p : Async c ProxyError (ImageResponse c))
        → Locks p
        → let t = (advance c m false p).1 in
          Progress (mutex.locked m) probing (phase t) × IsOnCourse t
    unfolding advance
    advance-Locks m (fail e) h = (Progress.rejects h, tt)
    advance-Locks m (log l p) (_, h) = advance-Locks m p h
    advance-Locks m (try_lock k) (won, lost) = elim (Bool-cases (mutex.locked m)) [
      | inl busy ↦ rw (mutex.try_held m busy, advance) (rw lost (conflicts busy, tt))
      | inr idle ↦
          let (held, got, taken) = mutex.try_free m idle in
          let (connects, course) = advance-Acquires held (k true) won in
          rw (got, advance) (rw connects (admits idle), course)
    ]
    advance-Locks m (done a) h = elim h [ ]
    advance-Locks m (send q k) h = elim h [ ]
    advance-Locks m (drop_guard p) h = elim h [ ]

    advance-Starts :
        (m : c.Mutex) (p : Async c ProxyError (ImageResponse c))
        → Starts p
        → let t = (advance c m false p).1 in Begins (mutex.locked m) (phase t) × IsOnCourse t
    unfolding advance
    advance-Starts m (send q k) h = (inr (inl refl), h)
    advance-Starts m (fail e) h = (inr (inr (Progress.rejects h)), tt)
    advance-Starts m (log l p) (_, h) = advance-Starts m p h
    advance-Starts m (try_lock k) h =
        let (moves, course) = advance-Locks m (try_lock k) h in (inr (inr moves), course)
    advance-Starts m (done a) h = elim h [ ]
    advance-Starts m (drop_guard p) h = elim h [ ]

  pub serve-Starts : (s : Server c) (call : Call) → Starts (serve c s.app call)
  unfolding serve handle_not_found
  serve-Starts s (image params) = handle_image_xva-Starts c s.app params
  serve-Starts s (unknown_path path) = λ same. cc same
