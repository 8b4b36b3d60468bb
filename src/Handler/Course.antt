-- ===== src/Handler/Course.antt =====
-- The course of the handler between its awaits: what it can still become.
use xoa_proxy.Prelude.{◌≡◌, refl, ◌≢◌, inl, inr, true, false, Option-cases}
use xoa_proxy.Rust.Text.{Text}
use xoa_proxy.Rust.Result.{Result, ok, err, Result-cases}
use xoa_proxy.Crates.{Crates}
use xoa_proxy.Log.{Line, lock_acquired, http_error}
use xoa_proxy.Error.{ProxyError, import_in_progress}
use xoa_proxy.Format.{ImageFormat}
use xoa_proxy.Async.{Async, done, fail, send, try_lock, drop_guard, log, ◌>>=◌, map_err}
use xoa_proxy.State.{AppState}
use xoa_proxy.Stream.{guard, fetch_xva_stream, guarded_stream, connected_line}
use xoa_proxy.Handler.{
  ImageParams, detect_format, detect_format_from_extension, build_response, image_head, transfer,
  handle_image_xva, select_client, fetch_error, probe_error, probe_line, format_of_headers,
}
use xoa_proxy.Handler.Source.{missing, wrong, valid, validate_src-SrcCheck}

-- A line tells that the import lock was taken, or that an error was answered, or neither.
pub data Mark : Type 0 where
  acquired http_failure plain : Mark

abbrev pub mark : Line → Mark
mark (lock_acquired src format) = acquired
mark (http_error status detail) = http_failure
mark _ = plain

module _ {c : Crates} {A : Type 0} where
  -- It fails, and not because of another import.
  abbrev pub IsRefusal : Async c ProxyError A → Type 0
  IsRefusal (fail e) = e ≢ import_in_progress
  IsRefusal (done a) = ⊥
  IsRefusal (send q k) = ⊥
  IsRefusal (try_lock k) = ⊥
  IsRefusal (drop_guard p) = ⊥
  IsRefusal (log l p) = (mark l ≡ plain) × IsRefusal p

  -- It has the guard: it succeeds with it, or drops it and fails.
  abbrev pub Finishes : Async c ProxyError A → Type 0
  Finishes (done a) = Unit
  Finishes (drop_guard p) = IsRefusal p
  Finishes (fail e) = ⊥
  Finishes (send q k) = ⊥
  Finishes (try_lock k) = ⊥
  Finishes (log l p) = (mark l ≡ plain) × Finishes p

  -- It has the guard, and asks the upstream for the image.
  abbrev pub Connects : Async c ProxyError A → Type 0
  Connects (send q k) = (r : Result c.Error c.Response) → Finishes (k r)
  Connects (done a) = ⊥
  Connects (fail e) = ⊥
  Connects (try_lock k) = ⊥
  Connects (drop_guard p) = ⊥
  Connects (log l p) = (mark l ≡ plain) × Connects p

  -- It has just got the guard, and logs that before anything else.
  abbrev pub Acquires : Async c ProxyError A → Type 0
  Acquires (log l p) = (mark l ≡ acquired) × Connects p
  Acquires (done a) = ⊥
  Acquires (fail e) = ⊥
  Acquires (send q k) = ⊥
  Acquires (try_lock k) = ⊥
  Acquires (drop_guard p) = ⊥

  -- It takes the import lock, unless it fails before; it fails at once if the lock is held.
  abbrev pub Locks : Async c ProxyError A → Type 0
  Locks (try_lock k) = Acquires (k true) × (k false ≡ fail import_in_progress)
  Locks (fail e) = e ≢ import_in_progress
  Locks (done a) = ⊥
  Locks (send q k) = ⊥
  Locks (drop_guard p) = ⊥
  Locks (log l p) = (mark l ≡ plain) × Locks p

  -- It probes the upstream once at most before that.
  abbrev pub Starts : Async c ProxyError A → Type 0
  Starts (send q k) = (r : Result c.Error c.Response) → Locks (k r)
  Starts (try_lock k) = Locks (try_lock k)
  Starts (fail e) = e ≢ import_in_progress
  Starts (done a) = ⊥
  Starts (drop_guard p) = ⊥
  Starts (log l p) = (mark l ≡ plain) × Starts p

module _ (c : Crates) (client : c.Client) (src : Text) where
  build_response-Finishes :
      (format : ImageFormat) (response : c.Response)
      → Finishes (build_response c (guarded_stream c src format guard response))
  unfolding build_response
  build_response-Finishes format response = elim (Option-cases (c.builder_error image_head)) [
    | inl fine ↦ rw (fine, build_response) tt
    | inr (e, refused) ↦ rw (refused, build_response) (refl, (refl, λ same. cc same))
  ]

  -- The download and the response, with the guard at hand.
  download-Connects :
      (format : ImageFormat)
      → Connects (
          map_err (fetch_error c src) (fetch_xva_stream c client src format guard)
          >>= build_response c)
  unfolding fetch_xva_stream fetch_error connected_line
  download-Connects format (err e) = (refl, λ same. cc same)
  download-Connects format (ok response) = elim (Result-cases (c.error_for_status response)) [
    | inr (e, bad) ↦ rw bad (refl, λ same. cc same)
    | inl (success, good) ↦ rw good (refl, build_response-Finishes format success)
  ]

  transfer-Starts : Starts (transfer c client src)
  unfolding transfer detect_format probe_error probe_line
  transfer-Starts = elim (Option-cases (detect_format_from_extension c src)) [
    | inr (format, known) ↦
        rw (known, detect_format) (refl, ((refl, download-Connects format), refl))
    | inl unknown ↦
        rw (unknown, detect_format)
          (
            refl,
            λ r. elim (Result-cases r) [
              | inl (probe, answered) ↦
                  rw answered (refl, ((refl, download-Connects (format_of_headers c probe)), refl))
              | inr (e, failed) ↦ rw failed (λ same. cc same)
            ],
          )
  ]

-- The handler sends one probe at most, and then takes the import lock, unless it fails before for a
-- reason of its own; if the lock is held it fails at once with `ImportInProgress`; if it got the lock
-- it logs that at once, and at no other point, and sends one more request; and whatever the answer
-- is, it then succeeds, and has the guard, or drops the guard and fails for another reason.
pub handle_image_xva-Starts :
    (c : Crates) (state : AppState c) (params : ImageParams)
    → Starts (handle_image_xva c state params)
unfolding handle_image_xva
handle_image_xva-Starts c state params = elim (validate_src-SrcCheck params.src) [
  | missing _ refused ↦ rw refused (λ same. cc same)
  | wrong s _ _ refused ↦ rw refused (λ same. cc same)
  | valid s named scheme accepted ↦
      rw accepted (refl, transfer-Starts c (select_client c state params.verify_ssl) s)
]
