-- ===== src/Server/Lines/Ledger.antt =====
-- The log of a server over a history.
use xoa_proxy.Prelude.{ℕ, ◌+◌, ◌≡◌, refl, ap, sym, ◌∙◌, List, [], ◌∷◌, ◌++◌, arith}
use mathlib.Core.List.{append_assoc}
use xoa_proxy.Rust.Text.{Text}
use xoa_proxy.Crates.{Crates}
use xoa_proxy.Crates.Laws.{MutexLaws, WatchLaws}
use xoa_proxy.Log.{Line}
use xoa_proxy.Handler.Course.{Mark, acquired, http_failure, plain, mark}
use xoa_proxy.Server.{Server, Action, step, start}
use xoa_proxy.Server.Count.{All}
use xoa_proxy.Server.Invariant.{Inv}
use xoa_proxy.Server.Steps.{step-Inv, start-Inv}
use xoa_proxy.Server.Refinement.{IsOnCourse}
use xoa_proxy.Server.Refinement.Steps.{step-Refines}
use xoa_proxy.Server.Lines.{
  step_log, history_log, count_mark, acquired_lines, error_of_line, error_lines, takes, refusals,
}
use xoa_proxy.Server.Lines.Steps.{step-Tells}

count_mark-add : (k : Mark) (n m : ℕ) → count_mark k (n + m) ≡ count_mark k n + m
count_mark-add acquired n m = omega arith
count_mark-add http_failure n m = refl
count_mark-add plain n m = refl

acquired_lines-append :
    (xs ys : List Line) → acquired_lines (xs ++ ys) ≡ acquired_lines xs + acquired_lines ys
acquired_lines-append [] ys = omega arith
acquired_lines-append (l ∷ xs) ys =
    ap (count_mark (mark l)) (acquired_lines-append xs ys) ∙ count_mark-add (mark l) _ _

error_lines-append : (xs ys : List Line) → error_lines (xs ++ ys) ≡ error_lines xs ++ error_lines ys
error_lines-append [] ys = refl
error_lines-append (l ∷ xs) ys =
    ap (λ rest. error_of_line l ++ rest) (error_lines-append xs ys)
    ∙ sym (append_assoc (error_of_line l) (error_lines xs) (error_lines ys))

module _ (c : Crates) (mutex : MutexLaws c) (watch : WatchLaws c) where
  -- How often the actions take the import lock, and the errors that they answer.
  abbrev pub takings : Server c → List (Action c) → ℕ
  takings s [] = 0
  takings s (a ∷ rest) =
      takes (mutex.locked s.app.import_lock) (mutex.locked (step c s a).app.import_lock)
      + takings (step c s a) rest

  abbrev pub all_refusals : Server c → List (Action c) → List (ℕ × Text)
  all_refusals s [] = []
  all_refusals s (a ∷ rest) = refusals c s a ++ all_refusals (step c s a) rest

  history-takings :
      (s : Server c) (actions : List (Action c))
      → Inv c mutex s
      → All (IsOnCourse c) s.tasks
      → acquired_lines (history_log c s actions) ≡ takings s actions
  unfolding history_log
  history-takings s [] v h = refl
  history-takings s (a ∷ rest) v h =
      let later =
        history-takings (step c s a) rest (step-Inv c mutex watch s a v)
          (step-Refines c mutex s a v h).course in
      omega (
        arith,
        acquired_lines-append (step_log c s a) (history_log c (step c s a) rest),
        (step-Tells c mutex s a h).0,
        later,
      )

  history-refusals :
      (s : Server c) (actions : List (Action c))
      → Inv c mutex s
      → All (IsOnCourse c) s.tasks
      → error_lines (history_log c s actions) ≡ all_refusals s actions
  unfolding history_log
  history-refusals s [] v h = refl
  history-refusals s (a ∷ rest) v h =
      let later =
        history-refusals (step c s a) rest (step-Inv c mutex watch s a v)
          (step-Refines c mutex s a v h).course in
      error_lines-append (step_log c s a) (history_log c (step c s a) rest)
      ∙ (rw ((step-Tells c mutex s a h).1, later) refl)

  -- The log tells of every import that takes the lock. Whatever requests arrive, are answered,
  -- polled and dropped, in whatever order, the server logs "Import lock acquired" exactly as often
  -- as an action finds the import lock free and leaves it locked.
  pub lock_is_logged :
      (v n : c.Client) (actions : List (Action c))
      → let s = start c v n in acquired_lines (history_log c s actions) ≡ takings s actions
  unfolding start
  lock_is_logged v n actions =
      history-takings (start c v n) actions (start-Inv c mutex watch v n) tt

  -- The log tells of every error. Whatever requests arrive, are answered, polled and dropped, in
  -- whatever order, the "HTTP error" lines of the server are, in their order and each once, the
  -- status and the body of the errors that its handlers answer.
  pub errors_are_logged :
      (v n : c.Client) (actions : List (Action c))
      → let s = start c v n in error_lines (history_log c s actions) ≡ all_refusals s actions
  unfolding start
  errors_are_logged v n actions =
      history-refusals (start c v n) actions (start-Inv c mutex watch v n) tt
