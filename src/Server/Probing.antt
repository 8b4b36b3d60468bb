-- ===== src/Server/Probing.antt =====
-- A whole import whose format a probe of the upstream tells, among the other requests of the server.
use xoa_proxy.Prelude.{
  ℕ, ◌⊎◌, inl, inr, ◌≡◌, refl, ap, sym, ◌∙◌, true, false, some, none, List, ◌++◌, length, get_elem?,
}
use xoa_proxy.Rust.Text.{Text, codes}
use xoa_proxy.Rust.Result.{Result, ok, err}
use xoa_proxy.Error.{ProxyError, probe_failed, import_in_progress}
use xoa_proxy.Crates.{Crates}
use xoa_proxy.Crates.Laws.{MutexLaws, WatchLaws}
use xoa_proxy.Stream.{guard, guarded_stream}
use xoa_proxy.Handler.{
  ImageParams, image_head, detect_format_from_extension, select_client, format_of_headers,
}
use xoa_proxy.Handler.Source.{HasScheme}
use xoa_proxy.Server.{
  image, Task, responding, Server, Action, advance, arrive, resume, step, answers, history, at_task,
}
use xoa_proxy.Server.Awaiting.{
  AwaitsImage, AwaitsProbe, locking-refused, locking-AwaitsImage, arrive-AwaitsProbe,
}
use xoa_proxy.Server.Count.{All}
use xoa_proxy.Server.Invariant.{Inv, arrive-Inv}
use xoa_proxy.Server.Isolation.{get_elem?-set}
use xoa_proxy.Server.Isolation.Outcome.{Spares, Stays, polled, polls_to, sending, history-awaiting}
use xoa_proxy.Server.Service.{image-undisturbed}
use xoa_proxy.Server.Steps.{step-Inv, history-Inv}

module _ (c : Crates) (mutex : MutexLaws c) where
  -- Why an import ends with its probe.
  abbrev probe_refusal : Result c.Error c.Response → ProxyError
  probe_refusal (err e) = probe_failed (codes "HEAD request failed: " ++ c.error_text e)
  probe_refusal (ok probe) = import_in_progress

  probed-AwaitsProbe :
      (s : Server c) (i : ℕ) (client : c.Client) (src : Text) (task : Task c)
      (before : List (Action c))
      → AwaitsProbe c client src task
      → get_elem? s.tasks i ≡ some task
      → All (Spares c i) before
      → get_elem? (history c s before).tasks i ≡ some task
  probed-AwaitsProbe s i client src task before (k, same, fails, goes) here spared =
      history-awaiting c mutex s i false _ k before spared (here ∙ ap some same)
      ∙ ap some (sym same)

  probed-refused :
      (s : Server c) (i : ℕ) (client : c.Client) (src : Text) (task : Task c)
      (r : Result c.Error c.Response)
      → AwaitsProbe c client src task
      → get_elem? s.tasks i ≡ some task
      → ((e : c.Error) × (r ≡ err e)) ⊎ (mutex.locked s.app.import_lock ≡ true)
      → let out = step c s (answers i r) in
        (get_elem? out.tasks i ≡ some (responding (err (probe_refusal r))))
        × (out.app.import_lock ≡ s.app.import_lock)
  unfolding step resume advance
  probed-refused s i client src task (err e) (k, same, fails, goes) here why =
      rw (here, at_task)
        (rw same (rw (fails e, advance) (get_elem?-set s.tasks i task _ here, refl)))
  probed-refused s i client src task (ok probe) awaits here (inl (e, failed)) = absurd (cc failed)
  probed-refused s i client src task (ok probe) (k, same, fails, goes) here (inr busy) =
      rw (here, at_task)
        (rw same (
          rw (goes probe) (
            rw
              (locking-refused c mutex s.app.import_lock client src (format_of_headers c probe)
                busy)
              (get_elem?-set s.tasks i task _ here, refl))))

  probed-AwaitsImage :
      (s : Server c) (i : ℕ) (client : c.Client) (src : Text) (task : Task c) (probe : c.Response)
      → AwaitsProbe c client src task
      → get_elem? s.tasks i ≡ some task
      → mutex.locked s.app.import_lock ≡ false
      → (next : Task c) × AwaitsImage c client src (format_of_headers c probe) next
        × (get_elem? (step c s (answers i (ok probe))).tasks i ≡ some next)
  unfolding step resume advance
  probed-AwaitsImage s i client src task probe (k, same, fails, goes) here free =
      rw (here, at_task)
        (rw same (
          rw (goes probe) (
            _,
            (locking-AwaitsImage c mutex s.app.import_lock client src (format_of_headers c probe)
                free).1,
            get_elem?-set s.tasks i task _ here,
          )))

  -- An import whose format a probe must tell is refused if its probe fails, or the lock is taken
  -- when the probe is answered. In any state, if an import arrives with a valid `src` whose
  -- extension tells no format, and its probe ends in an error, or in a response (with any status)
  -- while the lock is locked, then the import gets the answer `probe_failed` with that error, or
  -- `import_in_progress`, and leaves the lock as it is: whatever the lock was on its arrival, and
  -- whatever happens before the probe's end, as long as the request itself is not dropped, and gets
  -- no other answer before this one.
  pub probed_import_refused :
      (s : Server c) (before : List (Action c)) (params : ImageParams) (src : Text)
      (r : Result c.Error c.Response)
      → params.src ≡ some src
      → HasScheme src
      → detect_format_from_extension c src ≡ none
      → All (Spares c (length s.tasks)) before
      → ((e : c.Error) × (r ≡ err e))
        ⊎ (mutex.locked (history c (arrive c s (image params)) before).app.import_lock ≡ true)
      → let i = length s.tasks in
        let probing = history c (arrive c s (image params)) before in
        let out = step c probing (answers i r) in
        (get_elem? out.tasks i ≡ some (responding (err (probe_refusal r))))
        × (out.app.import_lock ≡ probing.app.import_lock)
  probed_import_refused s before params src r named scheme unknown spared why =
      let i = length s.tasks in
      let client = select_client c s.app params.verify_ssl in
      let arrived = arrive c s (image params) in
      let (task, awaits, here) = arrive-AwaitsProbe c mutex s params src named scheme unknown in
      probed-refused (history c arrived before) i client src task r awaits
        (probed-AwaitsProbe arrived i client src task before awaits here spared) why

  module _ (watch : WatchLaws c) where
    -- An import whose format a probe must tell is served alike whatever the other requests do. If,
    -- in a valid state, an import arrives with a valid `src` whose extension tells no format, the
    -- upstream answers its probe while the lock is free, and its download well, then the response
    -- is the stream of the image in the format that the probe's headers tell, polled exactly as
    -- often as its connection has polled it, and the lock is held: whether or not the lock was free
    -- on its arrival, and whatever requests arrive, are answered, polled or dropped before, between
    -- and after the two answers, as long as this request is not dropped itself, and gets no other
    -- answers up to the second.
    pub probed_import_undisturbed :
        (s : Server c) (before between after : List (Action c)) (params : ImageParams) (src : Text)
        (probe answered response : c.Response)
        → Inv c mutex s
        → params.src ≡ some src
        → HasScheme src
        → detect_format_from_extension c src ≡ none
        → c.error_for_status answered ≡ ok response
        → c.builder_error image_head ≡ none
        → All (Spares c (length s.tasks)) before
        → All (Spares c (length s.tasks)) between
        → All (Stays c (length s.tasks)) after
        → mutex.locked (history c (arrive c s (image params)) before).app.import_lock ≡ false
        → let i = length s.tasks in
          let probing = history c (arrive c s (image params)) before in
          let waiting = history c (step c probing (answers i (ok probe))) between in
          let out = history c (step c waiting (answers i (ok answered))) after in
          let image = guarded_stream c src (format_of_headers c probe) guard response in
          (get_elem? out.tasks i
            ≡ some (sending c image_head (polled c (polls_to c i after) image)))
          × (mutex.locked out.app.import_lock ≡ true)
    probed_import_undisturbed s before between after params src probe answered response v named
          scheme unknown good fine spared spared' stays free =
        let i = length s.tasks in
        let client = select_client c s.app params.verify_ssl in
        let arrived = arrive c s (image params) in
        let probing = history c arrived before in
        let (task, awaits, here) = arrive-AwaitsProbe c mutex s params src named scheme unknown in
        let still = probed-AwaitsProbe arrived i client src task before awaits here spared in
        let (next, awaits', here') =
          probed-AwaitsImage probing i client src task probe awaits still free in
        let valid = step-Inv c mutex watch probing (answers i (ok probe)) (
          history-Inv c mutex watch arrived before (arrive-Inv c mutex watch s (image params) v)) in
        image-undisturbed c mutex watch (step c probing (answers i (ok probe))) i between after
          client src (format_of_headers c probe) next answered response valid awaits' here' good
          fine spared' stays
