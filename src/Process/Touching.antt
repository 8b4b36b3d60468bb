-- ===== src/Process/Touching.antt =====
-- Which actions write the count of active requests.
use xoa_proxy.Prelude.{ℕ, ◌≡◌, refl, ◌⊎◌, inl, inr, true, false, some, Option-cases, get_elem?}
use xoa_proxy.Rust.Result.{Result, ok, err}
use xoa_proxy.Crates.{Crates}
use xoa_proxy.Lifecycle.Activity.{enter, leave, increment, decrement}
use xoa_proxy.Server.{
  Server, Action, arrives, rejects, answers, polls, drops, Task, awaiting, responding, rejected,
  gone, step, arrive, reject, resume, release, at_task,
}
use xoa_proxy.Process.{touches, is_live}

module _ (c : Crates) where
  resume-activity :
      (s : Server c) (i : ℕ) (r : Result c.Error c.Response) (t : Task c)
      → (resume c s i r t).activity ≡ s.activity
  unfolding resume
  resume-activity s i r (awaiting held q k) = refl
  resume-activity s i r (responding reply) = refl
  resume-activity s i r (rejected status) = refl
  resume-activity s i r gone = refl

  release-activity :
      (s : Server c) (i : ℕ) (t : Task c)
      → ((is_live c (some t) ≡ false) × ((release c s i t).activity ≡ s.activity))
        ⊎ ((is_live c (some t) ≡ true)
            × ((f : ℕ → ℕ) × ((release c s i t).activity ≡ c.send_modify f s.activity)))
  unfolding release leave
  release-activity s i (awaiting held q k) = inr (refl, (decrement, refl))
  release-activity s i (responding (ok response)) = inr (refl, (decrement, refl))
  release-activity s i (responding (err e)) = inr (refl, (decrement, refl))
  release-activity s i (rejected status) = inr (refl, (decrement, refl))
  release-activity s i gone = inl (refl, refl)

  -- A step that does not touch the activity count leaves the channel alone; any other writes it.
  pub step-activity :
      (s : Server c) (a : Action c)
      → ((touches c s a ≡ false) × ((step c s a).activity ≡ s.activity))
        ⊎ ((touches c s a ≡ true)
            × ((f : ℕ → ℕ) × ((step c s a).activity ≡ c.send_modify f s.activity)))
  unfolding step arrive reject enter
  step-activity s (arrives call) = inr (refl, (increment, refl))
  step-activity s (rejects status) = inr (refl, (increment, refl))
  step-activity s (answers i r) = elim (Option-cases (get_elem? s.tasks i)) [
    | inl missing ↦ inl (refl, rw (missing, at_task))
    | inr (t, e) ↦ inl (refl, rw (e, at_task) (resume-activity s i r t))
  ]
  step-activity s (polls i) = elim (Option-cases (get_elem? s.tasks i)) [
    | inl missing ↦ inl (refl, rw (missing, at_task))
    | inr (t, e) ↦ inl (refl, rw (e, at_task))
  ]
  step-activity s (drops i) = elim (Option-cases (get_elem? s.tasks i)) [
    | inl missing ↦ inl (rw missing, rw (missing, at_task))
    | inr (t, e) ↦ rw (e, at_task) (release-activity s i t)
  ]
