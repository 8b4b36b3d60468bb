-- ===== src/Handler/Answers.antt =====
-- A run of the handler that is alone, against an upstream that answers by a function, is a row of the
-- decision table.
use xoa_proxy.Prelude.{◌≡◌, refl, ◌⊎◌, inl, inr, true, false, none, Option-cases, Bool-cases, ◌++◌}
use xoa_proxy.Rust.Text.{Text, codes}
use xoa_proxy.Rust.Result.{Result, ok, err, Result-cases}
use xoa_proxy.Crates.{Crates}
use xoa_proxy.Crates.Laws.{MutexLaws}
use xoa_proxy.Error.{ProxyError, probe_failed}
use xoa_proxy.Format.{ImageFormat}
use xoa_proxy.Log.{lock_acquired}
use xoa_proxy.Async.{UpstreamRequest, Async, log, ◌>>=◌, map_err}
use xoa_proxy.Async.Run.{run}
use xoa_proxy.State.{AppState}
use xoa_proxy.Stream.{OwnedMutexGuard, guard, guarded_stream, fetch_xva_stream}
use xoa_proxy.Handler.{
  ImageParams, ImageResponse, detect_format, detect_format_from_extension, format_of_headers,
  image_head, build_response, fetch_error, select_client, transfer, handle_image_xva,
  try_lock_owned,
}
use xoa_proxy.Handler.Source.{missing, wrong, valid, validate_src-SrcCheck}
use xoa_proxy.Handler.Decision.{
  probed, downloaded, HasFormat, Transfer, unprobed, busy, unreachable, bad_status, unbuilt,
  streams, Answer, no_src, bad_scheme, transferred,
}

module _ (c : Crates) (upstream : UpstreamRequest c → Result c.Error c.Response) where
  run-detect :
      {B : Type 0} (m : c.Mutex) (client : c.Client) (src : Text)
      (k : ImageFormat → Async c ProxyError B)
      → ((e : c.Error) × (detect_format_from_extension c src ≡ none)
          × (probed c upstream client src ≡ err e)
          × (run upstream m (detect_format c client src >>= k)
              ≡ (err (probe_failed (codes "HEAD request failed: " ++ c.error_text e)), m)))
        ⊎ ((format : ImageFormat) × HasFormat c upstream client src format
            × (run upstream m (detect_format c client src >>= k) ≡ run upstream m (k format)))
  unfolding run detect_format
  run-detect m client src k = elim (Option-cases (detect_format_from_extension c src)) [
    | inr (format, known) ↦ inr (format, inl known, rw (known, detect_format))
    | inl unknown ↦ elim (Result-cases (probed c upstream client src)) [
      | inl (probe, answered) ↦ inr (
        format_of_headers c probe,
        inr (unknown, (probe, answered, refl)),
        rw (unknown, detect_format) (rw (answered, run)),
      )
      | inr (e, failed) ↦ inl (e, unknown, failed, rw (unknown, detect_format) (rw (failed, run)))
    ]
  ]

  -- The download and the response, with the guard at hand.
  abbrev download :
      c.Client → Text → ImageFormat → OwnedMutexGuard → Async c ProxyError (ImageResponse c)
  download client src format held =
      map_err (fetch_error c src) (fetch_xva_stream c client src format held) >>= build_response c

  -- What the transfer does once the format is known.
  abbrev locking : c.Client → Text → ImageFormat → Async c ProxyError (ImageResponse c)
  locking client src format =
      try_lock_owned c >>= λ held. log (lock_acquired src format) (download client src format held)

  module _ (laws : MutexLaws c) (m held : c.Mutex) (client : c.Client) (src : Text)
      (format : ImageFormat) (known : HasFormat c upstream client src format)
      (free : laws.locked m ≡ false) (taken : laws.locked held ≡ true) where
    run-build :
        (answered response : c.Response)
        → downloaded c upstream client src ≡ ok answered
        → c.error_for_status answered ≡ ok response
        → Transfer c upstream laws m client src
            (run upstream held (build_response c (guarded_stream c src format guard response)))
    unfolding run build_response
    run-build answered response got good = elim (Option-cases (c.builder_error image_head)) [
      | inl fine ↦
          streams format answered response known free got good fine (rw (fine, build_response))
            (rw (fine, build_response) taken)
      | inr (e, refused) ↦
          unbuilt format e known free refused (rw (refused, build_response))
            (rw (refused, build_response) (laws.drop_frees held))
    ]

    run-download :
        Transfer c upstream laws m client src (run upstream held (download client src format guard))
    unfolding run fetch_xva_stream fetch_error
    run-download = elim (Result-cases (downloaded c upstream client src)) [
      | inr (e, failed) ↦
          rw (failed, run) (unreachable format e known free failed refl (laws.drop_frees held))
      | inl (answered, got) ↦ elim (Result-cases (c.error_for_status answered)) [
        | inr (e, bad) ↦
            rw (got, run)
              (rw (bad, run)
                (bad_status format answered e known free got bad refl (laws.drop_frees held)))
        | inl (response, good) ↦
            rw (got, run) (rw (good, run) (run-build answered response got good))
      ]
    ]

  transfer-Transfer :
      (laws : MutexLaws c) (m : c.Mutex) (client : c.Client) (src : Text)
      → Transfer c upstream laws m client src (run upstream m (transfer c client src))
  unfolding run transfer
  transfer-Transfer laws m client src = elim (run-detect m client src (locking client src)) [
    | inl (e, unknown, failed, out) ↦ rw out (unprobed e unknown failed refl refl)
    | inr (format, known, out) ↦ rw out (run-locking format known)
  ]
    where
      run-locking :
          (format : ImageFormat)
          → HasFormat c upstream client src format
          → Transfer c upstream laws m client src (run upstream m (locking client src format))
      run-locking format known = elim (Bool-cases (laws.locked m)) [
        | inl locked ↦ rw (laws.try_held m locked, run) (busy format known locked refl refl)
        | inr free ↦
            let (held, got, taken) = laws.try_free m free in
            rw (got, run) (run-download laws m held client src format known free taken)
      ]

  -- Run alone, the handler always returns, with the result and the lock of one row of the table
  -- `Answer`: 400 for a missing `src` or another scheme; the probe's error; 409 if and only if the
  -- lock is held once the format is known; the three upstream errors, with the lock free again; or
  -- the stream of the image in its format, with the lock held.
  pub handle_image_xva-Answer :
      (laws : MutexLaws c) (m : c.Mutex) (state : AppState c) (params : ImageParams)
      → Answer c upstream laws m state params (run upstream m (handle_image_xva c state params))
  unfolding run handle_image_xva select_client
  handle_image_xva-Answer laws m state params = elim (validate_src-SrcCheck params.src) [
    | missing absent refused ↦ no_src absent (rw refused)
    | wrong src named other refused ↦ bad_scheme src named other (rw refused)
    | valid src named scheme accepted ↦
        transferred src named scheme
          (rw accepted (transfer-Transfer laws m (select_client c state params.verify_ssl) src))
  ]
