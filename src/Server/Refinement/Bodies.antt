-- ===== src/Server/Refinement/Bodies.antt =====
-- The polls of the response bodies and the drops, as steps of the abstract proxy.
use mathlib.Core.Path.{subst}
use xoa_proxy.Prelude.{
  ℕ, ◌≡◌, refl, inl, inr, true, false, Option-cases, List, get_elem?, set, map-set, get_elem?-map,
  get_elem?-map-none, set_self, set_beyond,
}
use xoa_proxy.Rust.Result.{ok, err}
use xoa_proxy.Crates.{Crates}
use xoa_proxy.Server.{
  Task, awaiting, responding, rejected, gone, Server, poll_body, release, at_task,
}
use xoa_proxy.Server.Release.{release-tasks}
use xoa_proxy.Server.Count.{All, All-set, All-get}
use xoa_proxy.Server.Phases.{ended, Label, Move}
use xoa_proxy.Server.Refinement.{phase, view, IsOnCourse}

module _ (c : Crates) where
  phase-poll_body : (t : Task c) → phase c (poll_body c t) ≡ phase c t
  unfolding poll_body
  phase-poll_body (awaiting false q k) = refl
  phase-poll_body (awaiting true q k) = refl
  phase-poll_body (responding (ok response)) = refl
  phase-poll_body (responding (err e)) = refl
  phase-poll_body (rejected status) = refl
  phase-poll_body gone = refl

  course-poll_body : (t : Task c) → IsOnCourse c t → IsOnCourse c (poll_body c t)
  unfolding poll_body
  course-poll_body (awaiting held q k) h = h
  course-poll_body (responding (ok response)) h = tt
  course-poll_body (responding (err e)) h = tt
  course-poll_body (rejected status) h = tt
  course-poll_body gone h = tt

  -- A step, together with what it leaves of the tasks.
  pub record Refines (l : Label) (ts us : List (Task c)) : Type 0 where
    pub move : Move l (view c ts) (view c us)
    pub course : All (IsOnCourse c) us

  pub drops-Refines :
      (s : Server c) (i : ℕ)
      → All (IsOnCourse c) s.tasks
      → Refines (Label.leaving i) s.tasks (at_task c s i (release c s i)).tasks
  drops-Refines s i h = elim (Option-cases (get_elem? s.tasks i)) [
    | inl missing ↦
        rw (missing, at_task)
          (record {
            move =
                subst (λ xs. Move (Label.leaving i) (view c s.tasks) xs)
                  (set_beyond (view c s.tasks) i ended
                    (get_elem?-map-none (phase c) s.tasks i missing))
                  Move.leave;
            course = h;
          })
    | inr (t, e) ↦
        rw (e, at_task)
          (rw (release-tasks c s i t e) (record {
            move = rw (map-set (phase c) s.tasks i gone) Move.leave;
            course = All-set (IsOnCourse c) s.tasks i gone h tt;
          }))
  ]

  pub polls-Refines :
      (s : Server c) (i : ℕ)
      → All (IsOnCourse c) s.tasks
      → Refines Label.poll s.tasks
          (at_task c s i (λ t. record s { tasks = set s.tasks i (poll_body c t) })).tasks
  polls-Refines s i h = elim (Option-cases (get_elem? s.tasks i)) [
    | inl missing ↦ rw (missing, at_task) (record { move = Move.send; course = h })
    | inr (t, e) ↦
        rw (e, at_task)
          (record {
            move =
                rw (map-set (phase c) s.tasks i (poll_body c t), phase-poll_body t)
                  (rw
                    (set_self (view c s.tasks) i (phase c t)
                      (get_elem?-map (phase c) s.tasks i t e))
                    Move.send);
            course =
                All-set (IsOnCourse c) s.tasks i _ h
                  (course-poll_body t (All-get (IsOnCourse c) s.tasks i t h e));
          })
  ]
