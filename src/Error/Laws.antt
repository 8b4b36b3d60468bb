-- ===== src/Error/Laws.antt =====
-- What a client can tell from an error response.
use xoa_proxy.Prelude.{◌≡◌, refl, ◌⊎◌, inl, inr, ◌↔◌, true, [], arith}
use xoa_proxy.Rust.Text.{Text, codes, contains}
use xoa_proxy.Rust.Text.Laws.{contains-suffix}
use xoa_proxy.Error.{
  ProxyError, bad_request, not_found, import_in_progress, upstream_failed, probe_failed,
  into_response,
}

-- The errors for which the upstream is at fault.
abbrev pub IsUpstreamFault : ProxyError → Type 0
IsUpstreamFault e = ((m : Text) × (e ≡ upstream_failed m)) ⊎ ((m : Text) × (e ≡ probe_failed m))

-- The reason that the caller gave stands in the body of every error that carries one.
abbrev pub reason : ProxyError → Text
reason (bad_request msg) = msg
reason (not_found msg) = msg
reason import_in_progress = codes "import"
reason (upstream_failed msg) = msg
reason (probe_failed msg) = msg

into_response-reason : (e : ProxyError) → contains (into_response e).1 (reason e) ≡ true
unfolding into_response contains
into_response-reason (bad_request msg) = contains-suffix [] msg
into_response-reason (not_found msg) = contains-suffix [] msg
into_response-reason import_in_progress = refl
into_response-reason (upstream_failed msg) = contains-suffix [] msg
into_response-reason (probe_failed msg) =
    contains-suffix (codes "Format probe failed — could not determine image type: ") msg

-- An error is answered by 502 if and only if the upstream failed, in the download or in the probe; by
-- 409 if and only if an import is in progress; by 400 if and only if the request is bad; and by 404 if
-- and only if the path is unknown. The body holds the reason of the error, which for
-- `ImportInProgress` is the word "import".
pub into_response_status :
    (e : ProxyError)
    → (((into_response e).0 ≡ 502) ↔ IsUpstreamFault e)
      × (((into_response e).0 ≡ 409) ↔ (e ≡ import_in_progress))
      × (((into_response e).0 ≡ 400) ↔ ((m : Text) × (e ≡ bad_request m)))
      × (((into_response e).0 ≡ 404) ↔ ((m : Text) × (e ≡ not_found m)))
      × (contains (into_response e).1 (reason e) ≡ true)
unfolding into_response
into_response_status (bad_request msg) = (
  ground arith,
  ground arith,
  (λ _. (msg, refl), λ _. refl),
  ground arith,
  into_response-reason (bad_request msg),
)
into_response_status (not_found msg) = (
  ground arith,
  ground arith,
  ground arith,
  (λ _. (msg, refl), λ _. refl),
  into_response-reason (not_found msg),
)
into_response_status import_in_progress = (
  ground arith,
  ground arith,
  ground arith,
  ground arith,
  into_response-reason import_in_progress,
)
into_response_status (upstream_failed msg) = (
  (λ _. inl (msg, refl), λ _. refl),
  ground arith,
  ground arith,
  ground arith,
  into_response-reason (upstream_failed msg),
)
into_response_status (probe_failed msg) = (
  (λ _. inr (msg, refl), λ _. refl),
  ground arith,
  ground arith,
  ground arith,
  into_response-reason (probe_failed msg),
)
