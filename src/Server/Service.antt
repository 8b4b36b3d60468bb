-- ===== src/Server/Service.antt =====
-- A whole import among the other requests of the server.
use xoa_proxy.Prelude.{ℕ, ◌≡◌, refl, ap, ◌∙◌, true, false, some, none, List, length, get_elem?}
use xoa_proxy.Rust.Text.{Text}
use xoa_proxy.Rust.Result.{ok}
use xoa_proxy.Crates.{Crates}
use xoa_proxy.Crates.Laws.{MutexLaws, WatchLaws}
use xoa_proxy.Format.{ImageFormat}
use xoa_proxy.Stream.{guard, guarded_stream}
use xoa_proxy.Handler.{ImageParams, image_head, detect_format_from_extension, select_client}
use xoa_proxy.Handler.Source.{HasScheme}
use xoa_proxy.Server.{image, Task, Server, Action, arrive, step, answers, history}
use xoa_proxy.Server.Awaiting.{AwaitsImage, resume-sending, arrive-AwaitsImage, guard-locked}
use xoa_proxy.Server.Count.{All}
use xoa_proxy.Server.Invariant.{Inv, arrive-Inv}
use xoa_proxy.Server.Steps.{step-Inv, history-Inv}
use xoa_proxy.Server.Isolation.Outcome.{
  Spares, Stays, polled, polls_to, sending, history-awaiting, history-sending,
}

module _ (c : Crates) (mutex : MutexLaws c) (watch : WatchLaws c) where
  -- From the download on.
  pub image-undisturbed :
      (s : Server c) (i : ℕ) (before after : List (Action c)) (client : c.Client) (src : Text)
      (format : ImageFormat) (task : Task c) (answered response : c.Response)
      → Inv c mutex s
      → AwaitsImage c client src format task
      → get_elem? s.tasks i ≡ some task
      → c.error_for_status answered ≡ ok response
      → c.builder_error image_head ≡ none
      → All (Spares c i) before
      → All (Stays c i) after
      → let out = history c (step c (history c s before) (answers i (ok answered))) after in
        (get_elem? out.tasks i
          ≡ some (
              sending c image_head
                (polled c (polls_to c i after) (guarded_stream c src format guard response))))
        × (mutex.locked out.app.import_lock ≡ true)
  image-undisturbed s i before after client src format task answered response v (k, same, sends)
        here good fine spared stays =
      let waiting = history c s before in
      let answered' = step c waiting (answers i (ok answered)) in
      let still = history-awaiting c mutex s i true _ k before spared (here ∙ ap some same) in
      let sent =
        resume-sending c mutex waiting i client src format _ answered response (k, refl, sends)
          still good fine in
      let streams = history-sending c mutex answered' i image_head _ after stays sent in
      let valid = history-Inv c mutex watch answered' after (
        step-Inv c mutex watch waiting (answers i (ok answered))
          (history-Inv c mutex watch s before v)) in
      (streams, guard-locked c mutex (history c answered' after) i _ valid streams refl)

  -- An import is served alike whatever the other requests do. If, in a valid state with a free
  -- lock, an import arrives with a valid `src` whose extension tells its format, and the upstream
  -- answers its download well, then the response is the stream of the image in that format,
  -- polled exactly as often as its connection has polled it, and the lock is held: whatever
  -- requests arrive, are answered, polled or dropped before and after the upstream's answer, as
  -- long as this request is not dropped itself, and gets no other answer before this one.
  pub import_undisturbed :
      (s : Server c) (before after : List (Action c)) (params : ImageParams) (src : Text)
      (format : ImageFormat) (answered response : c.Response)
      → Inv c mutex s
      → mutex.locked s.app.import_lock ≡ false
      → params.src ≡ some src
      → HasScheme src
      → detect_format_from_extension c src ≡ some format
      → c.error_for_status answered ≡ ok response
      → c.builder_error image_head ≡ none
      → All (Spares c (length s.tasks)) before
      → All (Stays c (length s.tasks)) after
      → let i = length s.tasks in
        let waiting = history c (arrive c s (image params)) before in
        let out = history c (step c waiting (answers i (ok answered))) after in
        (get_elem? out.tasks i
          ≡ some (
              sending c image_head
                (polled c (polls_to c i after) (guarded_stream c src format guard response))))
        × (mutex.locked out.app.import_lock ≡ true)
  import_undisturbed s before after params src format answered response v free named scheme known
        good fine spared stays =
      let client = select_client c s.app params.verify_ssl in
      let (task, awaits, here) =
        arrive-AwaitsImage c mutex s params src format named scheme known free in
      image-undisturbed (arrive c s (image params)) (length s.tasks) before after client src format
        task answered response (arrive-Inv c mutex watch s (image params) v) awaits here good fine
        spared stays
