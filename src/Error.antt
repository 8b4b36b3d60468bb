-- ===== src/Error.antt =====
-- src/error.rs: `ProxyError` and its conversion into a response.
pub mod Laws
use xoa_proxy.Prelude.{ℕ, ◌++◌}
use xoa_proxy.Rust.Text.{Text, codes}
use xoa_proxy.Log.{Line, http_error}

pub data ProxyError : Type 0 where
  bad_request : Text → ProxyError
  not_found : Text → ProxyError
  import_in_progress : ProxyError
  upstream_failed : Text → ProxyError
  probe_failed : Text → ProxyError

-- `into_response`: the status and the body.
unfoldable pub into_response : ProxyError → ℕ × Text
into_response (bad_request msg) = (400, msg)
into_response (not_found msg) = (404, msg)
into_response import_in_progress =
    (409, codes "An import is already in progress. Only one concurrent import is allowed.")
into_response (upstream_failed msg) = (502, msg)
into_response (probe_failed msg) =
    (502, codes "Format probe failed — could not determine image type: " ++ msg)

-- The line that `into_response` logs.
unfoldable pub error_line : ProxyError → Line
error_line e = let (status, body) = into_response e in http_error status body
