-- ===== src/Server/Refinement/Histories.antt =====
-- Each history of the server is a run of the abstract proxy.
use xoa_proxy.Prelude.{◌%◌, ◌≡◌, sym, List, [], ◌∷◌, map}
use xoa_proxy.Crates.{Crates}
use xoa_proxy.Crates.Laws.{MutexLaws, WatchLaws}
use xoa_proxy.Lifecycle.Activity.{usize_mod}
use xoa_proxy.Server.{Server, Action, step, history, start}
use xoa_proxy.Server.Count.{All}
use xoa_proxy.Server.Invariant.{Inv}
use xoa_proxy.Server.Steps.{step-Inv, start-Inv, history-start-Inv}
use xoa_proxy.Server.Phases.{is_live, is_busy, count, Moves}
use xoa_proxy.Server.Refinement.Steps.{step-Refines}
use xoa_proxy.Server.Refinement.Views.{busy_lem, counts_live}
use xoa_proxy.Server.Refinement.{view, label, IsOnCourse}

module _ (c : Crates) (mutex : MutexLaws c) (watch : WatchLaws c) where
  -- The abstract run of a history, and what the abstract state that it reaches tells.
  history-Moves :
      (s : Server c) (actions : List (Action c))
      → Inv c mutex s
      → All (IsOnCourse c) s.tasks
      → Moves (map (label c) actions) (view c s.tasks) (view c (history c s actions).tasks)
  unfolding history
  history-Moves s [] v h = Moves.here
  history-Moves s (a ∷ rest) v h =
      let r = step-Refines c mutex s a v h in
      Moves.then r.move (history-Moves (step c s a) rest (step-Inv c mutex watch s a v) r.course)

  pub history-course :
      (s : Server c) (actions : List (Action c))
      → Inv c mutex s
      → All (IsOnCourse c) s.tasks
      → All (IsOnCourse c) (history c s actions).tasks
  unfolding history
  history-course s [] v h = h
  history-course s (a ∷ rest) v h =
      history-course (step c s a) rest (step-Inv c mutex watch s a v)
        (step-Refines c mutex s a v h).course

  -- The abstract run from any state that is reached.
  pub reached-Moves :
      (v n : c.Client) (before actions : List (Action c))
      → let s = history c (start c v n) before in
        Moves (map (label c) actions) (view c s.tasks) (view c (history c s actions).tasks)
  unfolding start
  reached-Moves v n before actions =
      history-Moves (history c (start c v n) before) actions
        (history-start-Inv c mutex watch v n before)
        (history-course (start c v n) before (start-Inv c mutex watch v n) tt)

  -- The server refines the abstract proxy. Any history of it, seen as the phases of its requests,
  -- is a run of the abstract proxy: a request is answered by the router, or is refused for a
  -- reason of its own, at once or after one probe; else it begins its import, and does so only
  -- while no other request imports, or it is answered by 409, and is so only while one does; an
  -- import connects, then streams or is refused; bodies are sent without a change of phase, and a
  -- request ends wherever it stands. And the phases tell the rest of the state: the import lock is
  -- locked if and only if a request imports, and the counter is the number of the requests that
  -- have not ended, modulo 2 ^ 64.
  pub history-Refines :
      (v n : c.Client) (actions : List (Action c))
      → let s = history c (start c v n) actions in
        Moves (map (label c) actions) [] (view c s.tasks)
        × (mutex.locked s.app.import_lock ≡ is_busy (view c s.tasks))
        × (c.borrow s.activity ≡ count is_live (view c s.tasks) % usize_mod)
  unfolding start
  history-Refines v n actions =
      let inv = history-start-Inv c mutex watch v n actions in
      (
        history-Moves (start c v n) actions (start-Inv c mutex watch v n) tt,
        sym (busy_lem c _ _ inv.exclusive),
        rw (← counts_live c (history c (start c v n) actions).tasks) inv.counted,
      )
