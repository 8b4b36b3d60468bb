-- ===== src/Server/Lines/Steps.antt =====
-- What one action of a server logs.
use xoa_proxy.Prelude.{
  ℕ, ◌≡◌, refl, sym, ◌∙◌, inl, inr, true, false, Option-cases, Option, none, some, List, [], ◌∷◌,
  length, get_elem?, set,
}
use xoa_proxy.Rust.Result.{Result, ok, err}
use xoa_proxy.Crates.{Crates, Poll, pending, ready}
use xoa_proxy.Crates.Laws.{MutexLaws}
use xoa_proxy.Log.{Line}
use xoa_proxy.Stream.{poll_log, log_item, poll_next}
use xoa_proxy.Server.{
  Call, Task, awaiting, responding, rejected, gone, Server, Action, arrives, rejects, answers,
  polls, drops, serve, advance, arrive, reject, resume, poll_body, release, step, at_task,
}
use xoa_proxy.Server.Count.{All, All-get}
use xoa_proxy.Server.Isolation.{get_elem?-set, get_elem?-last}
use xoa_proxy.Server.Refinement.{IsOnCourse, serve-Starts}
use xoa_proxy.Server.Lines.{
  resume_log, poll_body_log, release_log, task_log, step_log, acquired_lines, error_lines, takes,
  becomes, refusals,
}
use xoa_proxy.Server.Lines.Advance.{
  takes-same, takes-free, Finishes-Tells, Locks-Tells, Starts-Tells,
}

get_elem?-length : {A : Type 0} (xs : List A) → get_elem? xs (length xs) ≡ none
get_elem?-length [] = refl
get_elem?-length (x ∷ xs) = get_elem?-length xs

module _ (c : Crates) where
  -- A poll tells of no lock and of no answer.
  log_item-plain :
      (o : Option (Poll c.IoError))
      → (acquired_lines (log_item c o) ≡ 0) × (error_lines (log_item c o) ≡ [])
  unfolding log_item
  log_item-plain none = (refl, refl)
  log_item-plain (some pending) = (refl, refl)
  log_item-plain (some (ready (ok b))) = (refl, refl)
  log_item-plain (some (ready (err e))) = (refl, refl)

  module _ (mutex : MutexLaws c) where
    -- The lines of an action tell whether it took the lock, and the error that it answered.
    abbrev pub StepTells : Server c → Action c → Type 0
    StepTells s a =
        (acquired_lines (step_log c s a)
          ≡ takes (mutex.locked s.app.import_lock) (mutex.locked (step c s a).app.import_lock))
        × (error_lines (step_log c s a) ≡ refusals c s a)

    unchanged :
        (s : Server c) → 0 ≡ takes (mutex.locked s.app.import_lock) (mutex.locked s.app.import_lock)
    unchanged s = sym (takes-same (mutex.locked s.app.import_lock))

    arrives-Tells : (s : Server c) (call : Call) → StepTells s (arrives call)
    unfolding step step_log arrive
    arrives-Tells s call =
        let m = s.app.import_lock in
        let (taken, errors) = Starts-Tells c mutex m (serve c s.app call) (serve-Starts c s call) in
        (
          taken,
          rw
              (
                get_elem?-length s.tasks,
                get_elem?-last s.tasks (advance c m false (serve c s.app call)).1,
              )
              errors,
        )

    rejects-Tells : (s : Server c) (status : ℕ) → StepTells s (rejects status)
    unfolding step step_log reject
    rejects-Tells s status =
        (unchanged s, rw (get_elem?-length s.tasks, get_elem?-last s.tasks (rejected status)) refl)

    -- What the action on a task that is there tells.
    abbrev TaskTells : Server c → ℕ → Task c → Server c → List Line → Type 0
    TaskTells s i t out lines =
        (acquired_lines lines
          ≡ takes (mutex.locked s.app.import_lock) (mutex.locked out.app.import_lock))
        × (error_lines lines ≡ becomes (some t) (get_elem? out.tasks i))

    resume-Tells :
        (s : Server c) (i : ℕ) (r : Result c.Error c.Response) (t : Task c)
        → get_elem? s.tasks i ≡ some t
        → IsOnCourse c t
        → TaskTells s i t (resume c s i r t) (resume_log c s.app.import_lock r t)
    unfolding resume resume_log
    resume-Tells s i r (awaiting false q k) e h =
        let m = s.app.import_lock in
        let (taken, errors) = Locks-Tells c mutex m (k r) (h r) in
        (taken, rw (get_elem?-set s.tasks i _ (advance c m false (k r)).1 e) errors)
    resume-Tells s i r (awaiting true q k) e h =
        let m = s.app.import_lock in
        let (taken, errors) = Finishes-Tells c mutex m (k r) (h r) in
        (taken, rw (get_elem?-set s.tasks i _ (advance c m true (k r)).1 e) errors)
    resume-Tells s i r (responding reply) e h = (unchanged s, refl)
    resume-Tells s i r (rejected status) e h = (unchanged s, rw e refl)
    resume-Tells s i r gone e h = (unchanged s, rw e refl)

    poll-Tells :
        (s : Server c) (i : ℕ) (t : Task c)
        → get_elem? s.tasks i ≡ some t
        → TaskTells s i t (record s { tasks = set s.tasks i (poll_body c t) }) (poll_body_log c t)
    unfolding poll_body poll_body_log poll_log
    poll-Tells s i (responding (ok response)) e =
        let (none_yet, errors) = log_item-plain (poll_next c response.body).0 in
        (none_yet ∙ unchanged s, errors)
    poll-Tells s i (responding (err x)) e = (unchanged s, refl)
    poll-Tells s i (awaiting held q k) e =
        (unchanged s, rw (get_elem?-set s.tasks i _ (awaiting held q k) e) refl)
    poll-Tells s i (rejected status) e =
        (unchanged s, rw (get_elem?-set s.tasks i _ (rejected status) e) refl)
    poll-Tells s i gone e = (unchanged s, rw (get_elem?-set s.tasks i _ gone e) refl)

    release-Tells :
        (s : Server c) (i : ℕ) (t : Task c)
        → get_elem? s.tasks i ≡ some t
        → TaskTells s i t (release c s i t) (release_log c t)
    unfolding release release_log
    release-Tells s i (responding (ok response)) e =
        (rw (mutex.drop_frees s.app.import_lock) (sym (takes-free _)), refl)
    release-Tells s i (responding (err x)) e = (unchanged s, refl)
    release-Tells s i (awaiting true q k) e = (
      rw (mutex.drop_frees s.app.import_lock) (sym (takes-free _)),
      rw (get_elem?-set s.tasks i _ gone e) refl,
    )
    release-Tells s i (awaiting false q k) e =
        (unchanged s, rw (get_elem?-set s.tasks i _ gone e) refl)
    release-Tells s i (rejected status) e =
        (unchanged s, rw (get_elem?-set s.tasks i _ gone e) refl)
    release-Tells s i gone e = (unchanged s, rw e refl)

    pub step-Tells : (s : Server c) (a : Action c) → All (IsOnCourse c) s.tasks → StepTells s a
    unfolding step step_log
    step-Tells s (arrives call) h = arrives-Tells s call
    step-Tells s (rejects status) h = rejects-Tells s status
    step-Tells s (answers i r) h = elim (Option-cases (get_elem? s.tasks i)) [
      | inl missing ↦ rw (missing, at_task, task_log) (unchanged s, rw missing refl)
      | inr (t, e) ↦
          rw (e, at_task, task_log)
            (resume-Tells s i r t e (All-get (IsOnCourse c) s.tasks i t h e))
    ]
    step-Tells s (polls i) h = elim (Option-cases (get_elem? s.tasks i)) [
      | inl missing ↦ rw (missing, at_task, task_log) (unchanged s, rw missing refl)
      | inr (t, e) ↦ rw (e, at_task, task_log) (poll-Tells s i t e)
    ]
    step-Tells s (drops i) h = elim (Option-cases (get_elem? s.tasks i)) [
      | inl missing ↦ rw (missing, at_task, task_log) (unchanged s, rw missing refl)
      | inr (t, e) ↦ rw (e, at_task, task_log) (release-Tells s i t e)
    ]
