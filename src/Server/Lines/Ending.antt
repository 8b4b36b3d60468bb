-- ===== src/Server/Lines/Ending.antt =====
-- How an import ends in the log.
use xoa_proxy.Prelude.{ℕ, ◌≡◌, ap, false, none, some, List, [], ◌∷◌, length, get_elem?}
use xoa_proxy.Rust.Text.{Text}
use xoa_proxy.Rust.Result.{ok}
use xoa_proxy.Crates.{Crates}
use xoa_proxy.Crates.Laws.{MutexLaws, WatchLaws}
use xoa_proxy.Format.{ImageFormat}
use xoa_proxy.Log.{finished}
use xoa_proxy.Stream.{guard, guarded_stream}
use xoa_proxy.Stream.Laws.{polls, chunk_bytes}
use xoa_proxy.Stream.Report.Laws.{report, drop-polls}
use xoa_proxy.Handler.{ImageParams, image_head, detect_format_from_extension}
use xoa_proxy.Handler.Source.{HasScheme}
use xoa_proxy.Server.{
  image, Server, Action, arrive, step, answers, drops, history, release, at_task,
}
use xoa_proxy.Server.Count.{All}
use xoa_proxy.Server.Invariant.{Inv}
use xoa_proxy.Server.Isolation.Outcome.{Spares, Stays, polls_to, sending}
use xoa_proxy.Server.Service.{import_undisturbed}
use xoa_proxy.Server.Lines.{step_log, task_log, release_log}

module _ (c : Crates) (mutex : MutexLaws c) where
  -- A stream that is dropped logs one line, and frees the lock.
  sending-dropped :
      (s : Server c) (i n : ℕ) (src : Text) (format : ImageFormat) (response : c.Response)
      → let (given, body) = polls c n (guarded_stream c src format guard response) in
        get_elem? s.tasks i ≡ some (sending c image_head body)
        → (step_log c s (drops i) ≡ finished (report c src format (chunk_bytes c given)) ∷ [])
          × (mutex.locked (step c s (drops i)).app.import_lock ≡ false)
  unfolding step step_log release release_log
  sending-dropped s i n src format response here =
      rw (here, at_task, task_log)
        (
          ap (λ f. finished f ∷ []) (drop-polls c src format guard response n),
          mutex.drop_frees s.app.import_lock,
        )

  module _ (watch : WatchLaws c) where
    -- An import ends with one line that tells what it delivered, and with a free lock. If, in a
    -- valid state with a free lock, an import arrives with a valid `src` whose extension tells its
    -- format, and the upstream answers its download well, then, whenever its stream is dropped, it
    -- logs one line, with `src`, the format, and the number of the bytes in the chunks that its
    -- connection was given, modulo 2 ^ 64; and the lock is free again: whatever requests arrive, are
    -- answered, polled or dropped meanwhile, as long as this request gets no other answer before
    -- this one.
    pub import_reports :
        (s : Server c) (before after : List (Action c)) (params : ImageParams) (src : Text)
        (format : ImageFormat) (answered response : c.Response)
        → Inv c mutex s
        → mutex.locked s.app.import_lock ≡ false
        → params.src ≡ some src
        → HasScheme src
        → detect_format_from_extension c src ≡ some format
        → c.error_for_status answered ≡ ok response
        → c.builder_error image_head ≡ none
        → All (Spares c (length s.tasks)) before
        → All (Stays c (length s.tasks)) after
        → let i = length s.tasks in
          let waiting = history c (arrive c s (image params)) before in
          let out = history c (step c waiting (answers i (ok answered))) after in
          let given =
            (polls c (polls_to c i after) (guarded_stream c src format guard response)).0 in
          (step_log c out (drops i) ≡ finished (report c src format (chunk_bytes c given)) ∷ [])
          × (mutex.locked (step c out (drops i)).app.import_lock ≡ false)
    import_reports s before after params src format answered response v free named scheme known good
          fine spared stays =
        let i = length s.tasks in
        let waiting = history c (arrive c s (image params)) before in
        let out = history c (step c waiting (answers i (ok answered))) after in
        let (streams, _) =
          import_undisturbed c mutex watch s before after params src format answered response v free
            named scheme known good fine spared stays in
        sending-dropped out i (polls_to c i after) src format response streams
