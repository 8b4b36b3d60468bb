-- ===== src/Handler/Decision.antt =====
-- The decision table of src/handler.rs: which request gets which answer, and the lock it leaves.
use xoa_proxy.Prelude.{◌≡◌, ◌⊎◌, true, false, none, some, ◌++◌, unwrap_or, if◌then◌else◌}
use xoa_proxy.Rust.Text.{Text, codes}
use xoa_proxy.Rust.Result.{Result, ok, err}
use xoa_proxy.Crates.{Crates}
use xoa_proxy.Crates.Laws.{MutexLaws}
use xoa_proxy.Error.{ProxyError, probe_failed, upstream_failed, import_in_progress}
use xoa_proxy.Format.{ImageFormat}
use xoa_proxy.Async.{Method, UpstreamRequest}
use xoa_proxy.State.{AppState}
use xoa_proxy.Stream.{guard, guarded_stream}
use xoa_proxy.Handler.{
  ImageParams, ImageResponse, detect_format_from_extension, format_of_headers, image_head,
}
use xoa_proxy.Handler.Source.{HasScheme, missing_src, wrong_scheme}

module _ (c : Crates) (upstream : UpstreamRequest c → Result c.Error c.Response) where
  -- What the upstream answers to the probe and to the download of `src`.
  abbrev pub probed : c.Client → Text → Result c.Error c.Response
  probed client src = upstream (record {
    method = Method.head;
    client = client;
    url = src;
    accept_encoding = codes "identity";
  })

  abbrev pub downloaded : c.Client → Text → Result c.Error c.Response
  downloaded client src = upstream (record {
    method = Method.get;
    client = client;
    url = src;
    accept_encoding = codes "identity";
  })

  -- The format of the image at `src`: by its extension, or else by the probe's headers.
  abbrev pub HasFormat : c.Client → Text → ImageFormat → Type 0
  HasFormat client src format =
      (detect_format_from_extension c src ≡ some format)
      ⊎ ((detect_format_from_extension c src ≡ none)
          × ((probe : c.Response) × (probed client src ≡ ok probe)
              × (format_of_headers c probe ≡ format)))

  -- The rows of the decision for a valid `src`, each with its result and the lock that it leaves.
  pub data Transfer (laws : MutexLaws c) (m : c.Mutex) (client : c.Client) (src : Text)
      (out : Result ProxyError (ImageResponse c) × c.Mutex) : Type 0 where
    unprobed :
        (e : c.Error)
        → detect_format_from_extension c src ≡ none
        → probed client src ≡ err e
        → out.0 ≡ err (probe_failed (codes "HEAD request failed: " ++ c.error_text e))
        → out.1 ≡ m
        → Transfer laws m client src out
    busy :
        (format : ImageFormat)
        → HasFormat client src format
        → laws.locked m ≡ true
        → out.0 ≡ err import_in_progress
        → out.1 ≡ m
        → Transfer laws m client src out
    unreachable :
        (format : ImageFormat) (e : c.Error)
        → HasFormat client src format
        → laws.locked m ≡ false
        → downloaded client src ≡ err e
        → out.0
          ≡ err (
              upstream_failed (
                codes "Failed to fetch upstream image: "
                ++ c.context_text (codes "Failed to connect to upstream") e))
        → laws.locked out.1 ≡ false
        → Transfer laws m client src out
    bad_status :
        (format : ImageFormat) (answered : c.Response) (e : c.Error)
        → HasFormat client src format
        → laws.locked m ≡ false
        → downloaded client src ≡ ok answered
        → c.error_for_status answered ≡ err e
        → out.0
          ≡ err (
              upstream_failed (
                codes "Failed to fetch upstream image: "
                ++ c.context_text (codes "Upstream returned non-2xx status") e))
        → laws.locked out.1 ≡ false
        → Transfer laws m client src out
    unbuilt :
        (format : ImageFormat) (e : Text)
        → HasFormat client src format
        → laws.locked m ≡ false
        → c.builder_error image_head ≡ some e
        → out.0 ≡ err (upstream_failed (codes "Internal response builder error: " ++ e))
        → laws.locked out.1 ≡ false
        → Transfer laws m client src out
    streams :
        (format : ImageFormat) (answered response : c.Response)
        → HasFormat client src format
        → laws.locked m ≡ false
        → downloaded client src ≡ ok answered
        → c.error_for_status answered ≡ ok response
        → c.builder_error image_head ≡ none
        → out.0
          ≡ ok (record { head = image_head; body = guarded_stream c src format guard response })
        → laws.locked out.1 ≡ true
        → Transfer laws m client src out

  -- The decision of the handler: refused parameters change nothing and ask the upstream nothing.
  pub data Answer (laws : MutexLaws c) (m : c.Mutex) (state : AppState c) (params : ImageParams)
      (out : Result ProxyError (ImageResponse c) × c.Mutex) : Type 0 where
    no_src : params.src ≡ none → out ≡ (err missing_src, m) → Answer laws m state params out
    bad_scheme :
        (src : Text)
        → params.src ≡ some src
        → ¬ HasScheme src
        → out ≡ (err (wrong_scheme src), m)
        → Answer laws m state params out
    transferred :
        (src : Text)
        → params.src ≡ some src
        → HasScheme src
        → Transfer laws m
            (if unwrap_or true params.verify_ssl
              then state.client_verify
              else state.client_no_verify)
            src
            out
        → Answer laws m state params out
