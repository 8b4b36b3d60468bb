-- ===== src/Handler.antt =====
-- src/handler.rs: format detection, the `/image.xva` handler and the fallback.
pub mod Detection
pub mod Source
pub mod Traffic
pub mod Decision
pub mod Answers
pub mod Course
pub mod Delivery
use xoa_proxy.Prelude.{
  ℕ, Bool, true, false, not, ◌&&◌, ◌||◌, Option, none, some, List, [], ◌∷◌, ◌++◌, and_then,
  unwrap_or, take, if◌then◌else◌,
}
use xoa_proxy.Rust.Text.{Text, codes, starts_with, ends_with, contains, to_lowercase}
use xoa_proxy.Rust.Result.{Result, ok, err}
use xoa_proxy.Rust.Result
use xoa_proxy.Crates.{Crates, HeaderName, content_type, content_encoding, ResponseHead}
use xoa_proxy.Error.{
  ProxyError, bad_request, not_found, import_in_progress, upstream_failed, probe_failed,
}
use xoa_proxy.Format.{ImageFormat, gzip, raw}
use xoa_proxy.Async.{
  Method, UpstreamRequest, Async, done, fail, try_lock, drop_guard, log, ◌>>=◌, ◌>>◌, map_err, lift,
  await_send, log_line,
}
use xoa_proxy.Log.{
  Line, import_received, ambiguous_extension, probe_complete, extension_detected, lock_acquired,
  fetch_failed, response_failed, finished,
}
use xoa_proxy.State.{AppState}
use xoa_proxy.Stream.{OwnedMutexGuard, guard, GuardedStream, fetch_xva_stream}
use xoa_proxy.Stream.Report.{drop}

pub record ImageParams : Type 0 where
  pub src : Option Text
  pub verify_ssl : Option Bool

-- The branches of `detect_format_from_extension`, on the path of the parsed URL.
unfoldable pub format_of_path : Text → Option ImageFormat
format_of_path url_path =
    let path = to_lowercase url_path in
    if ends_with path (codes ".xva.gz") || ends_with path (codes ".xva.gzip")
    then some gzip
    else if ends_with path (codes ".xva")
    then some raw
    else none

-- The test on `src` that stands before everything else.
unfoldable pub validate_src : Option Text → Result ProxyError Text
validate_src none = err (bad_request (codes "Missing required query parameter: src"))
validate_src (some src_url) =
    if not (starts_with src_url (codes "http://")) && not (starts_with src_url (codes "https://"))
    then err
        (bad_request (codes "src must start with http:// or https://, got: " ++ take 40 src_url))
    else ok src_url

unfoldable pub image_head : ResponseHead
image_head = record {
  version = codes "HTTP/1.0";
  status = 200;
  headers =
      (codes "Content-Type", codes "application/octet-stream")
      ∷ (codes "Connection", codes "close")
      ∷ [];
}

module _ (c : Crates) where
  unfoldable pub detect_format_from_extension : Text → Option ImageFormat
  detect_format_from_extension src_url = and_then (c.url_path src_url) format_of_path

  -- A response header as text, `""` where it is missing or not visible ASCII, lowered.
  unfoldable pub header_text : HeaderName → c.Response → Text
  header_text name response =
      to_lowercase (unwrap_or [] (and_then (c.header name response) c.to_str))

  unfoldable pub format_of_headers : c.Response → ImageFormat
  format_of_headers response =
      if contains (header_text content_type response) (codes "gzip")
        || contains (header_text content_encoding response) (codes "gzip")
      then gzip
      else raw

  probe_error : c.Error → ProxyError
  probe_error e = probe_failed (codes "HEAD request failed: " ++ c.error_text e)

  unfoldable pub probe_line : Text → c.Response → Line
  unfolding header_text format_of_headers
  probe_line src_url response =
      probe_complete src_url (header_text content_type response)
        (header_text content_encoding response) (format_of_headers response)

  unfoldable pub detect_format_via_head : c.Client → Text → Async c ProxyError ImageFormat
  unfolding probe_error
  detect_format_via_head client src_url = do
    log_line (ambiguous_extension src_url)
    sent ← await_send (record {
      method = Method.head;
      client = client;
      url = src_url;
      accept_encoding = codes "identity";
    })
    response ← lift (Result.map_err probe_error sent)
    log_line (probe_line src_url response)
    done (format_of_headers response)

  unfoldable pub detect_format : c.Client → Text → Async c ProxyError ImageFormat
  unfolding detect_format_via_head
  detect_format client src_url = elim (detect_format_from_extension src_url) [
    | some format ↦ log (extension_detected src_url format) (done format)
    | none ↦ detect_format_via_head client src_url
  ]

  -- A response whose body is the guarded stream.
  pub record ImageResponse : Type 0 where
    pub head : ResponseHead
    pub body : GuardedStream c

  -- `Response::builder()..body(..)`; on a failure the stream is dropped first, and with it the guard.
  unfoldable pub build_response : GuardedStream c → Async c ProxyError ImageResponse
  unfolding image_head
  build_response stream = elim (c.builder_error image_head) [
    | some e ↦ log (finished (drop c stream)) (
        drop_guard (
          log (response_failed e)
            (fail (upstream_failed (codes "Internal response builder error: " ++ e)))))
    | none ↦ done (record { head = image_head; body = stream })
  ]

  -- `try_lock_owned().map_err(|_| ProxyError::ImportInProgress)`
  abbrev pub try_lock_owned : Async c ProxyError OwnedMutexGuard
  try_lock_owned = try_lock (λ b. if b then done guard else fail import_in_progress)

  unfoldable pub select_client : AppState c → Option Bool → c.Client
  select_client state verify_ssl =
      if unwrap_or true verify_ssl then state.client_verify else state.client_no_verify

  -- The closure of the `map_err` on the fetch.
  unfoldable pub fetch_error : {A : Type 0} → Text → Text → Async c ProxyError A
  fetch_error src_url e =
      log (fetch_failed e src_url)
        (fail (upstream_failed (codes "Failed to fetch upstream image: " ++ e)))

  -- `handle_image_xva` from the format detection on.
  unfoldable pub transfer : c.Client → Text → Async c ProxyError ImageResponse
  unfolding fetch_error
  transfer client src_url = do
    format ← detect_format client src_url
    held ← try_lock_owned
    log_line (lock_acquired src_url format)
    stream ← map_err (fetch_error src_url) (fetch_xva_stream c client src_url format held)
    build_response stream

  unfoldable pub handle_image_xva : AppState c → ImageParams → Async c ProxyError ImageResponse
  handle_image_xva state params = do
    src_url ← lift (validate_src params.src)
    log_line (import_received src_url (unwrap_or true params.verify_ssl))
    transfer (select_client state params.verify_ssl) src_url

-- `handle_not_found`, given `uri.path()`.
unfoldable pub handle_not_found : Text → ProxyError
handle_not_found path =
    not_found (codes "Unknown path '" ++ (path ++ codes "'. Expected /image.xva"))
