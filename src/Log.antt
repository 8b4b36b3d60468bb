-- ===== src/Log.antt =====
-- The lines that src/handler.rs, src/stream.rs and src/error.rs log, as `tracing` gets them.
use xoa_proxy.Prelude.{ℕ, Bool, true, false, Option, none, some, List, [], ◌∷◌, ◌++◌}
use xoa_proxy.Rust.Text.{Text, codes}
use xoa_proxy.Rust.Number.Print.{print_uint}
use xoa_proxy.Gib.{print_gib}
use xoa_proxy.Format.{ImageFormat, to_string}

pub data Level : Type 0 where
  info warn error : Level

-- What the drop of a stream tells of it.
pub record Finished : Type 0 where
  pub src : Text
  pub format : Text
  pub bytes_sent : ℕ
  pub gib : ℕ  -- hundredths

-- A statement of the code that logs, with its values.
pub data Line : Type 0 where
  import_received : (src : Text) → (ssl_verify : Bool) → Line
  ambiguous_extension : (src : Text) → Line
  probe_complete : (src content_type content_encoding : Text) → ImageFormat → Line
  extension_detected : (src : Text) → ImageFormat → Line
  lock_acquired : (src : Text) → ImageFormat → Line
  upstream_connected :
      (status : ℕ)
      → (content_length : Option ℕ)  -- in hundredths of a GiB
      → (content_type : Text) → ImageFormat
      → Line
  fetch_failed : (e src : Text) → Line
  response_failed : (e : Text) → Line
  read_error : (e : Text) → Line
  finished : Finished → Line
  http_error : (status : ℕ) → (detail : Text) → Line

show_bool : Bool → Text
show_bool true = codes "true"
show_bool false = codes "false"

show_gib : Option ℕ → Text
show_gib none = codes "unknown"
show_gib (some gib) = print_gib gib

-- The level, the message and the fields.
unfoldable pub render : Line → Level × Text × List (Text × Text)
unfolding show_bool show_gib
render (import_received src ssl_verify) = (
  info,
  codes "Import request received",
  (codes "src", src) ∷ (codes "ssl_verify", show_bool ssl_verify) ∷ [],
)
render (ambiguous_extension src) =
    (warn, codes "URL extension is ambiguous — sending HEAD probe", (codes "src", src) ∷ [])
render (probe_complete src content_type content_encoding format) = (
  info,
  codes "HEAD probe complete",
  (codes "src", src)
      ∷ (codes "content_type", content_type)
      ∷ (codes "content_encoding", content_encoding)
      ∷ (codes "detected", to_string format)
      ∷ [],
)
render (extension_detected src format) = (
  info,
  codes "Format detected from URL extension",
  (codes "src", src) ∷ (codes "detected", to_string format) ∷ [],
)
render (lock_acquired src format) = (
  info,
  codes "Import lock acquired — starting stream",
  (codes "src", src) ∷ (codes "format", to_string format) ∷ [],
)
render (upstream_connected status content_length content_type format) = (
  info,
  codes "Upstream connected: status="
      ++ (print_uint status
          ++ (codes ", content_length="
              ++ (show_gib content_length
                  ++ (codes " GiB, content_type="
                      ++ (content_type ++ (codes ", format=" ++ to_string format)))))),
  [],
)
render (fetch_failed e src) =
    (error, codes "Upstream fetch failed", (codes "error", e) ∷ (codes "src", src) ∷ [])
render (response_failed e) = (error, codes "Failed to build response", (codes "error", e) ∷ [])
render (read_error e) = (error, codes " Strem read error — terminating", (codes "error", e) ∷ [])
render (finished f) = (
  info,
  codes "XVA stream finished — "
      ++ (print_gib f.gib ++ codes " GiB transferred; import lock released"),
  (codes "src", f.src)
      ∷ (codes "format", f.format)
      ∷ (codes "bytes_sent", print_uint f.bytes_sent)
      ∷ [],
)
render (http_error status detail) =
    (warn, codes "HTTP error", (codes "status", print_uint status) ∷ (codes "detail", detail) ∷ [])
