-- ===== src/Handler/Traffic.antt =====
-- What the handler sends upstream, and its use of the import lock.
use xoa_proxy.Prelude.{
  ◌≡◌, refl, inl, inr, Bool, true, false, some, Option-cases, unwrap_or, if◌then◌else◌,
}
use xoa_proxy.Rust.Text.{Text, codes}
use xoa_proxy.Rust.Result.{Result, ok, err}
use xoa_proxy.Rust.Result
use xoa_proxy.Crates.{Crates}
use xoa_proxy.Format.{ImageFormat}
use xoa_proxy.Async.{Method, UpstreamRequest, lift, map_err}
use xoa_proxy.Async.Discipline.{Keeps, Keeps->>=, Keeps-map_err, Keeps-mono}
use xoa_proxy.State.{AppState}
use xoa_proxy.Stream.{OwnedMutexGuard, guard, fetch_xva_stream, GuardedStream, or_drop}
use xoa_proxy.Handler.{
  ImageParams, detect_format, detect_format_from_extension, build_response, image_head,
  select_client, handle_image_xva, transfer, fetch_error,
}
use xoa_proxy.Handler.Source.{HasScheme, missing, wrong, valid, validate_src-SrcCheck}

module _ (c : Crates) where
  -- A probe is sent without the import lock, and a download only under it.
  abbrev pub LockFits : Bool → Method → Type 0
  LockFits held Method.head = held ≡ false
  LockFits held Method.get = held ≡ true

  -- The requests that a call may send: to the URL that the caller named, through the client that
  -- the caller chose.
  abbrev pub Allowed : c.Client → Text → Bool → UpstreamRequest c → Type 0
  Allowed client src held q =
      LockFits held q.method
      × (q.client ≡ client)
      × (q.url ≡ src)
      × (q.accept_encoding ≡ codes "identity")

  module _ (client : c.Client) (src : Text) where
    lift-Keeps :
        {E A : Type 0} (held : Bool) (r : Result E A)
        → held ≡ false
        → Keeps (Allowed client src) held held (lift {c = c} r)
    lift-Keeps held (ok a) h = refl
    lift-Keeps held (err e) h = h

    or_drop-Keeps :
        {A : Type 0} (context : Text) (r : Result c.Error A)
        → Keeps (Allowed client src) true true (or_drop c context r)
    or_drop-Keeps context (ok a) = refl
    or_drop-Keeps context (err e) = (refl, refl)

    detect_format-Keeps : Keeps (Allowed client src) false false (detect_format c client src)
    unfolding detect_format
    detect_format-Keeps = elim (Option-cases (detect_format_from_extension c src)) [
      | inl unknown ↦
          rw (unknown, detect_format)
            (
              (refl, refl, refl, refl),
              λ r.
                  Keeps->>= (Allowed client src) false false false (lift (Result.map_err _ r)) _
                    (lift-Keeps false _ refl) (λ _. refl),
            )
      | inr (format, known) ↦ rw (known, detect_format) refl
    ]

    fetch_xva_stream-Keeps :
        (format : ImageFormat) (held : OwnedMutexGuard)
        → Keeps (Allowed client src) true true (fetch_xva_stream c client src format held)
    unfolding fetch_xva_stream
    fetch_xva_stream-Keeps format held = (
      (refl, refl, refl, refl),
      λ r.
          Keeps->>= (Allowed client src) true true true (or_drop c _ r) _ (or_drop-Keeps _ r)
            (λ answered.
              Keeps->>= (Allowed client src) true true true
                (or_drop c _ (c.error_for_status answered)) _ (or_drop-Keeps _ _) (λ _. refl)),
    )

    build_response-Keeps :
        (stream : GuardedStream c) → Keeps (Allowed client src) true true (build_response c stream)
    unfolding build_response
    build_response-Keeps stream = elim (Option-cases (c.builder_error image_head)) [
      | inl fine ↦ rw (fine, build_response) refl
      | inr (e, refused) ↦ rw (refused, build_response) (refl, refl)
    ]

    -- What follows the validation of `src`.
    transfer-Keeps : Keeps (Allowed client src) true false (transfer c client src)
    unfolding transfer fetch_error
    transfer-Keeps =
        Keeps->>= (Allowed client src) false true false (detect_format c client src) _
          detect_format-Keeps
          (λ format. (
            refl,
            Keeps->>= (Allowed client src) true true true
                (map_err (fetch_error c src) (fetch_xva_stream c client src format guard)) _
                (Keeps-map_err (Allowed client src) (fetch_error c src) true true
                  (fetch_xva_stream c client src format guard) (λ e. refl)
                  (fetch_xva_stream-Keeps format guard))
                build_response-Keeps,
            refl,
          ))

  -- The requests that the handler may send.
  abbrev pub Permitted : AppState c → ImageParams → Bool → UpstreamRequest c → Type 0
  Permitted state params held q =
      (src : Text) × (params.src ≡ some src)
      × HasScheme src
      × Allowed
          (if unwrap_or true params.verify_ssl then state.client_verify else state.client_no_verify)
          src held q

  -- Whatever the upstream answers and however often the import lock changes meanwhile, the handler
  -- sends upstream requests to the URL in `src` only, which begins with "http://" or "https://",
  -- through the verifying client unless `verify_ssl` is false, asking for no extra encoding; it
  -- downloads under the import lock only, and probes without it; it tries the lock at most while it
  -- does not hold it; and it ends with the lock held if and only if it answers with a stream.
  pub handle_image_xva-Keeps :
      (state : AppState c) (params : ImageParams)
      → Keeps (Permitted state params) true false (handle_image_xva c state params)
  unfolding handle_image_xva select_client
  handle_image_xva-Keeps state params = elim (validate_src-SrcCheck params.src) [
    | missing _ refused ↦ rw refused refl
    | wrong s _ _ refused ↦ rw refused refl
    | valid s named scheme accepted ↦
        let client = select_client c state params.verify_ssl in
        rw accepted (
          Keeps-mono (Allowed client s) (Permitted state params)
            (λ held q allowed. (s, named, scheme, allowed)) true false (transfer c client s)
            (transfer-Keeps client s))
  ]
