-- ===== src/Stream.antt =====
-- src/stream.rs: the client builder, the fetch pipeline and `GuardedStream`.
pub mod Laws
pub mod Report
use mathlib.Core.Option
use xoa_proxy.Prelude.{
  ℕ, ◌+◌, ◌*◌, ◌%◌, ◌^◌, Bool, true, false, not, Option, none, some, List, [], ◌∷◌, map, length,
  and_then, unwrap_or,
}
use xoa_proxy.Rust.Text.{Text, codes}
use xoa_proxy.Rust.Result.{Result, ok, err}
use xoa_proxy.Rust.Result
use xoa_proxy.Crates.{Crates, Bytes, Poll, pending, ready, content_type, ClientSettings}
use xoa_proxy.Gib.{bytes_to_gib}
use xoa_proxy.Log.{Line, upstream_connected, read_error}
use xoa_proxy.Format.{ImageFormat, gzip, raw}
use xoa_proxy.Async.{
  Method, UpstreamRequest, Async, done, fail, drop_guard, ◌>>=◌, ◌>>◌, lift, await_send, log_line,
}

-- `build_client`: the settings, and the built client or the context of the failure.
unfoldable pub client_settings : Bool → ClientSettings
client_settings ssl_verify = record {
  user_agent = codes "xoa-lite-proxy/1.0";
  gzip = false;
  deflate = false;
  brotli = false;
  accept_invalid_certs = not ssl_verify;
}

-- `OwnedMutexGuard<()>`: to have one is to have locked the import lock.
pub data OwnedMutexGuard : Type 0 where
  guard : OwnedMutexGuard

module _ (c : Crates) where
  unfoldable pub build_client : Bool → Result Text c.Client
  unfolding client_settings
  build_client ssl_verify =
      Result.map_err (c.context_text (codes "Failed to build HTTP client"))
        (c.build (client_settings ssl_verify))

  pub record GuardedStream : Type 0 where
    pub inner : List (Poll c.IoError)
    pub held : OwnedMutexGuard
    pub bytes_sent : ℕ  -- AtomicU64
    pub src_url : Text
    pub format : ImageFormat

  -- The closure of `inner.map`: what it adds to the counter.
  unfoldable pub count_item : Result c.IoError Bytes → ℕ → ℕ
  count_item (ok chunk) sent = (sent + length chunk) % 2 ^ 64
  count_item (err e) sent = sent

  -- What the closure of `inner.map` logs; it is not called for a pending poll or at the end.
  unfoldable pub log_item : Option (Poll c.IoError) → List Line
  log_item (some (ready (ok chunk))) = []
  log_item (some (ready (err e))) = read_error (c.io_text e) ∷ []
  log_item (some pending) = []
  log_item none = []

  -- `poll_next`: `some (ready item)`, `some pending`, or `none` at the end of the stream.
  poll_inner : List (Poll c.IoError) → GuardedStream → Option (Poll c.IoError) × GuardedStream
  unfolding count_item
  poll_inner [] s = (none, s)
  poll_inner (pending ∷ rest) s = (some pending, record s { inner = rest })
  poll_inner (ready item ∷ rest) s =
      (some (ready item), record s { inner = rest; bytes_sent = count_item item s.bytes_sent })

  unfoldable pub poll_next : GuardedStream → Option (Poll c.IoError) × GuardedStream
  unfolding poll_inner
  poll_next s = poll_inner s.inner s

  unfoldable pub poll_log : GuardedStream → List Line
  unfolding log_item
  poll_log s = log_item (poll_next s).0

  -- `map_err(std::io::Error::other)` on the stream of an upstream body.
  abbrev map_stream_error : List (Poll c.Error) → List (Poll c.IoError)
  map_stream_error [] = []
  map_stream_error (pending ∷ s) = pending ∷ map_stream_error s
  map_stream_error (ready (ok b) ∷ s) = ready (ok b) ∷ map_stream_error s
  map_stream_error (ready (err e) ∷ s) = ready (err (c.other e)) ∷ map_stream_error s

  -- The adapters that are stacked on the upstream body.
  unfoldable pub pipeline : ImageFormat → List (Poll c.IoError) → List (Poll c.IoError)
  pipeline gzip byte_stream =
      c.reader_stream (c.gzip_decoder (c.buf_reader (64 * 1024) (c.stream_reader byte_stream)))
  pipeline raw byte_stream = c.reader_stream (c.stream_reader byte_stream)

  -- The stream that is returned once the upstream has answered.
  unfoldable pub guarded_stream : Text → ImageFormat → OwnedMutexGuard → c.Response → GuardedStream
  guarded_stream src_url format held response = record {
    inner = pipeline format (map_stream_error (c.bytes_stream response));
    held = held;
    bytes_sent = 0;
    src_url = src_url;
    format = format;
  }

  -- An early return of `fetch_xva_stream` drops the guard that it owns.
  abbrev pub or_drop : {A : Type 0} → Text → Result c.Error A → Async c Text A
  or_drop context (ok a) = done a
  or_drop context (err e) = drop_guard (fail (c.context_text context e))

  -- The line that is logged once the upstream has answered.
  unfoldable pub connected_line : ImageFormat → c.Response → Line
  unfolding bytes_to_gib
  connected_line format response =
      upstream_connected (c.status response) (Option.map bytes_to_gib (c.content_length response))
        (unwrap_or (codes "unknown") (and_then (c.header content_type response) c.to_str)) format

  -- `fetch_xva_stream`. An error is known by its text.
  unfoldable pub fetch_xva_stream :
      c.Client → Text → ImageFormat → OwnedMutexGuard → Async c Text GuardedStream
  fetch_xva_stream client src_url format held = do
    sent ← await_send (record {
      method = Method.get;
      client = client;
      url = src_url;
      accept_encoding = codes "identity";
    })
    answered ← or_drop (codes "Failed to connect to upstream") sent
    response ← or_drop (codes "Upstream returned non-2xx status") (c.error_for_status answered)
    log_line (connected_line format response)
    done (guarded_stream src_url format held response)
