-- ===== src/Server/Refinement/Steps.antt =====
-- Each step of the server is a step of the abstract proxy.
use mathlib.Core.Path.{subst}
use mathlib.Core.List.{map-append}
use xoa_proxy.Prelude.{
  ℕ, ◌≡◌, refl, sym, ◌∙◌, inl, inr, true, false, Option-cases, some, List, [], ◌∷◌, arith,
  get_elem?, map-set, get_elem?-map, get_elem?-map-none, none-ne-some,
}
use xoa_proxy.Rust.Result.{Result, ok, err}
use xoa_proxy.Crates.{Crates}
use xoa_proxy.Crates.Laws.{MutexLaws}
use xoa_proxy.Server.{
  Call, Task, awaiting, responding, rejected, gone, Server, Action, arrives, rejects, reject,
  answers, polls, drops, serve, advance, arrive, resume, step, at_task,
}
use xoa_proxy.Server.Count.{All, All-append, All-set, All-get}
use xoa_proxy.Server.Invariant.{Inv}
use xoa_proxy.Server.Phases.{Phase, is_busy, Awaits, Label, Move}
use xoa_proxy.Server.Refinement.Views.{busy_lem}
use xoa_proxy.Server.Refinement.Bodies.{Refines, drops-Refines, polls-Refines}
use xoa_proxy.Server.Refinement.{
  phase, view, label, IsOnCourse, advance-Finishes, advance-Locks, advance-Starts, serve-Starts,
}

module _ (c : Crates) where
  -- A request that is being answered, or has ended, awaits nothing.
  ignores :
      (ts : List (Task c)) (i : ℕ) (t : Task c)
      → get_elem? ts i ≡ some t
      → ¬ Awaits (phase c t)
      → All (IsOnCourse c) ts
      → Refines c (Label.answer i) ts ts
  ignores ts i t e idle h = record {
    move = Move.ignore λ x here waits.
        idle (subst Awaits (same x (sym here ∙ get_elem?-map (phase c) ts i t e)) waits);
    course = h;
  }
    where
      same : (x : Phase) → some x ≡ some (phase c t) → x ≡ phase c t
      same x h = cc

  module _ (mutex : MutexLaws c) where
    resume-Refines :
        (s : Server c) (i : ℕ) (r : Result c.Error c.Response) (t : Task c)
        → get_elem? s.tasks i ≡ some t
        → Inv c mutex s
        → All (IsOnCourse c) s.tasks
        → Refines c (Label.answer i) s.tasks (resume c s i r t).tasks
    unfolding resume
    resume-Refines s i r (awaiting false q k) e v h =
        let m = s.app.import_lock in
        let (moves, course) =
          advance-Locks c mutex m (k r) (All-get (IsOnCourse c) s.tasks i _ h e r) in
        let task : Task c = (advance c m false (k r)).1 in
        record {
          move = rw (map-set (phase c) s.tasks i task) (
              Move.progress (get_elem?-map (phase c) s.tasks i _ e)
                (rw (busy_lem c s.tasks (mutex.locked m) v.exclusive) moves));
          course = All-set (IsOnCourse c) s.tasks i task h course;
        }
    resume-Refines s i r (awaiting true q k) e v h =
        let (moves, course) =
          advance-Finishes c (is_busy (view c s.tasks)) s.app.import_lock (k r)
            (All-get (IsOnCourse c) s.tasks i _ h e r) in
        let task : Task c = (advance c s.app.import_lock true (k r)).1 in
        record {
          move =
              rw (map-set (phase c) s.tasks i task)
                (Move.progress (get_elem?-map (phase c) s.tasks i _ e) moves);
          course = All-set (IsOnCourse c) s.tasks i task h course;
        }
    resume-Refines s i r (responding (ok response)) e v h =
        ignores s.tasks i _ e (λ w. ground arith) h
    resume-Refines s i r (responding (err x)) e v h = ignores s.tasks i _ e (λ w. ground arith) h
    resume-Refines s i r (rejected status) e v h = ignores s.tasks i _ e (λ w. ground arith) h
    resume-Refines s i r gone e v h = ignores s.tasks i _ e (λ w. ground arith) h

    answers-Refines :
        (s : Server c) (i : ℕ) (r : Result c.Error c.Response)
        → Inv c mutex s
        → All (IsOnCourse c) s.tasks
        → Refines c (Label.answer i) s.tasks (at_task c s i (resume c s i r)).tasks
    answers-Refines s i r v h = elim (Option-cases (get_elem? s.tasks i)) [
      | inl missing ↦
          rw (missing, at_task)
            (record {
              move =
                  Move.ignore
                    λ x here _. none-ne-some (get_elem?-map-none (phase c) s.tasks i missing) here;
              course = h;
            })
      | inr (t, e) ↦ rw (e, at_task) (resume-Refines s i r t e v h)
    ]

    arrive-Refines :
        (s : Server c) (call : Call)
        → Inv c mutex s
        → All (IsOnCourse c) s.tasks
        → Refines c Label.arrival s.tasks (arrive c s call).tasks
    unfolding arrive
    arrive-Refines s call v h =
        let m = s.app.import_lock in
        let (begins, course) =
          advance-Starts c mutex m (serve c s.app call) (serve-Starts c s call) in
        let task : Task c = (advance c m false (serve c s.app call)).1 in
        record {
          move =
              rw (map-append (phase c) s.tasks (task ∷ []))
                (Move.arrive (rw (busy_lem c s.tasks (mutex.locked m) v.exclusive) begins));
          course = All-append (IsOnCourse c) s.tasks (task ∷ []) h (course, tt);
        }

    reject-Refines :
        (s : Server c) (status : ℕ)
        → All (IsOnCourse c) s.tasks
        → Refines c Label.arrival s.tasks (reject c s status).tasks
    unfolding reject
    reject-Refines s status h = record {
      move = rw (map-append (phase c) s.tasks (rejected status ∷ [])) (Move.arrive (inl refl));
      course = All-append (IsOnCourse c) s.tasks (rejected status ∷ []) h (tt, tt);
    }

    pub step-Refines :
        (s : Server c) (a : Action c)
        → Inv c mutex s
        → All (IsOnCourse c) s.tasks
        → Refines c (label c a) s.tasks (step c s a).tasks
    unfolding step
    step-Refines s (arrives call) v h = arrive-Refines s call v h
    step-Refines s (rejects status) v h = reject-Refines s status h
    step-Refines s (answers i r) v h = answers-Refines s i r v h
    step-Refines s (polls i) v h = polls-Refines c s i h
    step-Refines s (drops i) v h = drops-Refines c s i h
