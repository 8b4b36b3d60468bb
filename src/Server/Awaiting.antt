-- ===== src/Server/Awaiting.antt =====
-- A request that holds the import lock and awaits its image: how it comes to that, and what follows.
use xoa_proxy.Prelude.{
  ℕ, ◌≡◌, refl, ap, true, false, inl, inr, Bool-cases, some, none, ◌++◌, length, get_elem?, arith,
}
use xoa_proxy.Rust.Text.{Text, codes}
use xoa_proxy.Rust.Result.{Result, ok, err}
use xoa_proxy.Error.{ProxyError, probe_failed, import_in_progress}
use xoa_proxy.Crates.{Crates}
use xoa_proxy.Log.{extension_detected, lock_acquired}
use xoa_proxy.Crates.Laws.{MutexLaws}
use xoa_proxy.Format.{ImageFormat}
use xoa_proxy.Async.{Method, UpstreamRequest, Async, fail, log, ◌>>=◌, ◌>>◌, map_err, log_line}
use xoa_proxy.Stream.{guard, guarded_stream, fetch_xva_stream}
use xoa_proxy.Handler.{
  ImageParams, ImageResponse, image_head, transfer, detect_format, detect_format_from_extension,
  build_response, select_client, fetch_error, format_of_headers, probe_line, try_lock_owned,
}
use xoa_proxy.Handler.Source.{HasScheme, handle_image_xva-transfer}
use xoa_proxy.Server.{
  image, Task, awaiting, responding, Server, serve, advance, arrive, resume, step, answers, at_task,
}
use xoa_proxy.Server.Count.{one_if, total-get}
use xoa_proxy.Server.Invariant.{guards, Inv}
use xoa_proxy.Server.Isolation.{get_elem?-set, get_elem?-last}
use xoa_proxy.Server.Isolation.Outcome.{sending}

module _ (c : Crates) where
  -- The handler from the import lock on.
  abbrev locking : c.Client → Text → ImageFormat → Async c ProxyError (ImageResponse c)
  locking client src format = do
    held ← try_lock_owned c
    log_line (lock_acquired src format)
    stream ← map_err (fetch_error c src) (fetch_xva_stream c client src format held)
    build_response c stream

  -- The download of `src`, and the probe of it.
  abbrev pub download_of : c.Client → Text → UpstreamRequest c
  download_of client src = record {
    method = Method.get;
    client = client;
    url = src;
    accept_encoding = codes "identity";
  }

  abbrev pub probe_of : c.Client → Text → UpstreamRequest c
  probe_of client src = record {
    method = Method.head;
    client = client;
    url = src;
    accept_encoding = codes "identity";
  }

  -- The task holds the import lock and awaits the image at `src`; it sends the image as soon as the
  -- upstream answers well.
  abbrev pub AwaitsImage : c.Client → Text → ImageFormat → Task c → Type 0
  AwaitsImage client src format task =
      (k : Result c.Error c.Response → Async c ProxyError (ImageResponse c)) × (task
        ≡ awaiting true (download_of client src) k)
      × ((answered response : c.Response)
          → c.error_for_status answered ≡ ok response
          → c.builder_error image_head ≡ none
          → (m : c.Mutex)
          → advance c m true (k (ok answered))
            ≡ (m, sending c image_head (guarded_stream c src format guard response)))

  -- The task awaits the probe, and goes on to the import lock if it is answered.
  abbrev pub AwaitsProbe : c.Client → Text → Task c → Type 0
  AwaitsProbe client src task =
      (k : Result c.Error c.Response → Async c ProxyError (ImageResponse c)) × (task
        ≡ awaiting false (probe_of client src) k)
      × ((e : c.Error)
          → k (err e) ≡ fail (probe_failed (codes "HEAD request failed: " ++ c.error_text e)))
      × ((probe : c.Response)
          → k (ok probe)
            ≡ log (probe_line c src probe) (locking client src (format_of_headers c probe)))

  transfer-locking :
      (client : c.Client) (src : Text) (format : ImageFormat)
      → detect_format_from_extension c src ≡ some format
      → transfer c client src ≡ log (extension_detected src format) (locking client src format)
  unfolding transfer detect_format
  transfer-locking client src format known = rw (known, transfer, detect_format) refl

  advance-AwaitsProbe :
      (m : c.Mutex) (client : c.Client) (src : Text)
      → detect_format_from_extension c src ≡ none
      → AwaitsProbe client src (advance c m false (transfer c client src)).1
  unfolding transfer detect_format advance
  advance-AwaitsProbe m client src unknown =
      rw (unknown, transfer, detect_format) (_, refl, λ e. refl, λ probe. refl)

  module _ (mutex : MutexLaws c) where
    pub locking-refused :
        (m : c.Mutex) (client : c.Client) (src : Text) (format : ImageFormat)
        → mutex.locked m ≡ true
        → advance c m false (locking client src format) ≡ (m, responding (err import_in_progress))
    unfolding advance
    locking-refused m client src format busy = rw (mutex.try_held m busy, advance) refl

    pub locking-AwaitsImage :
        (m : c.Mutex) (client : c.Client) (src : Text) (format : ImageFormat)
        → mutex.locked m ≡ false
        → (mutex.locked (advance c m false (locking client src format)).0 ≡ true)
          × AwaitsImage client src format (advance c m false (locking client src format)).1
    unfolding advance fetch_xva_stream build_response
    locking-AwaitsImage m client src format free =
        let (held, got, taken) = mutex.try_free m free in
        rw (got, advance)
          (
            taken,
            (
              _,
              refl,
              λ answered response good fine m.
                  rw (good, fetch_xva_stream) (rw (fine, build_response) refl),
            ),
          )

    pub resume-sending :
        (s : Server c) (i : ℕ) (client : c.Client) (src : Text) (format : ImageFormat)
        (task : Task c) (answered response : c.Response)
        → AwaitsImage client src format task
        → get_elem? s.tasks i ≡ some task
        → c.error_for_status answered ≡ ok response
        → c.builder_error image_head ≡ none
        → get_elem? (step c s (answers i (ok answered))).tasks i
          ≡ some (sending c image_head (guarded_stream c src format guard response))
    unfolding step resume
    resume-sending s i client src format task answered response (k, same, sends) here good fine =
        rw (here, at_task)
          (rw same (
            rw (sends answered response good fine s.app.import_lock)
              (get_elem?-set s.tasks i task _ here)))

    pub arrive-AwaitsImage :
        (s : Server c) (params : ImageParams) (src : Text) (format : ImageFormat)
        → params.src ≡ some src
        → HasScheme src
        → detect_format_from_extension c src ≡ some format
        → mutex.locked s.app.import_lock ≡ false
        → (task : Task c) × AwaitsImage (select_client c s.app params.verify_ssl) src format task
          × (get_elem? (arrive c s (image params)).tasks (length s.tasks) ≡ some task)
    unfolding arrive serve advance
    arrive-AwaitsImage s params src format named scheme known free =
        let client = select_client c s.app params.verify_ssl in
        rw (handle_image_xva-transfer c s.app params src named scheme) (
          rw (transfer-locking client src format known) (
            _,
            (locking-AwaitsImage s.app.import_lock client src format free).1,
            get_elem?-last s.tasks _,
          ))

    pub arrive-AwaitsProbe :
        (s : Server c) (params : ImageParams) (src : Text)
        → params.src ≡ some src
        → HasScheme src
        → detect_format_from_extension c src ≡ none
        → (task : Task c) × AwaitsProbe (select_client c s.app params.verify_ssl) src task
          × (get_elem? (arrive c s (image params)).tasks (length s.tasks) ≡ some task)
    unfolding arrive serve advance
    arrive-AwaitsProbe s params src named scheme unknown =
        rw (handle_image_xva-transfer c s.app params src named scheme) (
          _,
          advance-AwaitsProbe s.app.import_lock (select_client c s.app params.verify_ssl) src
              unknown,
          get_elem?-last s.tasks _,
        )

    -- A task that owns a guard shows that the lock is locked.
    pub guard-locked :
        (s : Server c) (i : ℕ) (t : Task c)
        → Inv c mutex s
        → get_elem? s.tasks i ≡ some t
        → guards c t ≡ 1
        → mutex.locked s.app.import_lock ≡ true
    guard-locked s i t v here owner = elim (Bool-cases (mutex.locked s.app.import_lock)) [
      | inl locked ↦ locked
      | inr free ↦
          absurd (
            omega
              (arith, total-get (guards c) s.tasks i t here, owner, v.exclusive, ap one_if free))
    ]
