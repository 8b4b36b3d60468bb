-- ===== src/Server/Refinement/Views.antt =====
-- What the phases of the requests tell of the import lock and of the counter.
use xoa_proxy.Prelude.{
  ℕ, ◌+◌, ◌≡◌, refl, ap, inl, inr, Bool, true, false, Bool-cases, List, [], ◌∷◌, arith,
}
use xoa_proxy.Rust.Result.{ok, err}
use xoa_proxy.Crates.{Crates}
use xoa_proxy.Server.{Task, awaiting, responding, rejected, gone}
use xoa_proxy.Server.Count.{one_if, total}
use xoa_proxy.Server.Invariant.{guards, active}
use xoa_proxy.Server.Phases.{is_importing, is_live, is_busy, count}
use xoa_proxy.Server.Refinement.{phase, view}

module _ (c : Crates) where
  -- The abstract state shows who has the guard, and how many requests are active.
  guards_lem : (t : Task c) → guards c t ≡ one_if (is_importing (phase c t))
  guards_lem (awaiting false q k) = refl
  guards_lem (awaiting true q k) = refl
  guards_lem (responding (ok response)) = refl
  guards_lem (responding (err e)) = refl
  guards_lem (rejected status) = refl
  guards_lem gone = refl

  active_lem : (t : Task c) → active c t ≡ one_if (is_live (phase c t))
  active_lem (awaiting false q k) = refl
  active_lem (awaiting true q k) = refl
  active_lem (responding (ok response)) = refl
  active_lem (responding (err e)) = refl
  active_lem (rejected status) = refl
  active_lem gone = refl

  pub counts_live : (ts : List (Task c)) → total (active c) ts ≡ count is_live (view c ts)
  counts_live [] = refl
  counts_live (t ∷ ts) = omega (arith, active_lem t, counts_live ts)

  true_of_one : (n : ℕ) (b : Bool) → 1 + n ≡ one_if b → true ≡ b
  true_of_one n true h = refl
  true_of_one n false h = absurd (omega arith)

  -- A request imports just if a guard is out.
  pub busy_lem :
      (ts : List (Task c)) (b : Bool) → total (guards c) ts ≡ one_if b → is_busy (view c ts) ≡ b
  busy_lem [] true h = absurd (omega arith)
  busy_lem [] false h = refl
  busy_lem (t ∷ ts) b h = elim (Bool-cases (is_importing (phase c t))) [
    | inl imports ↦
        rw imports
          (true_of_one (total (guards c) ts) b (omega (arith, h, guards_lem t, ap one_if imports)))
    | inr other ↦ rw other (busy_lem ts b (omega (arith, h, guards_lem t, ap one_if other)))
  ]
