-- ===== src/Handler/Delivery.antt =====
-- A whole import, from the request to the last byte of the body.
use xoa_proxy.Prelude.{
  ℕ, ◌%◌, ◌^◌, ◌≤◌, ◌≡◌, refl, ap, sym, ◌∙◌, inl, inr, true, false, Option, none, some, unwrap_or,
  List, [], ◌∷◌, length, length-append, arith, if◌then◌else◌,
}
use mathlib.Core.Path.{subst}
use mathlib.Core.List.{append-nil}
use xoa_proxy.Rust.Text.{Text}
use xoa_proxy.Rust.Result.{Result, ok, err}
use xoa_proxy.Crates.{Crates, Bytes, Poll, pending, ready}
use xoa_proxy.Crates.Laws.{MutexLaws, ReaderLaws, content}
use xoa_proxy.Error.{ProxyError}
use xoa_proxy.Format.{ImageFormat, gzip, raw}
use xoa_proxy.Async.{UpstreamRequest}
use xoa_proxy.Async.Run.{run}
use xoa_proxy.State.{AppState}
use xoa_proxy.Stream.{GuardedStream, guard, guarded_stream}
use xoa_proxy.Stream.Laws.{
  polls, chunk_bytes, polls-Delivers, gzip_stream_content, raw_stream_content,
}
use xoa_proxy.Handler.{
  ImageParams, ImageResponse, image_head, handle_image_xva, detect_format_from_extension,
}
use xoa_proxy.Handler.Source.{HasScheme}
use xoa_proxy.Handler.Decision.{
  probed, downloaded, HasFormat, Transfer, unprobed, busy, unreachable, bad_status, unbuilt,
  streams, no_src, bad_scheme, transferred,
}
use xoa_proxy.Handler.Answers.{handle_image_xva-Answer}

module _ (c : Crates) where
  -- The client that the parameters select.
  abbrev pub chosen : AppState c → ImageParams → c.Client
  chosen state params =
      if unwrap_or true params.verify_ssl then state.client_verify else state.client_no_verify

  chunk_bytes-content :
      (s : List (Poll c.IoError)) → (content s).1 ≡ none → chunk_bytes c s ≡ length (content s).0
  chunk_bytes-content [] e = refl
  chunk_bytes-content (pending ∷ s) e = chunk_bytes-content s e
  chunk_bytes-content (ready (ok b) ∷ s) e =
      omega (arith, chunk_bytes-content s e, length-append b (content s).0)
  chunk_bytes-content (ready (err x) ∷ s) e = absurd (cc)

  nil_of_length : {A : Type 0} (xs : List A) → length xs ≡ 0 → xs ≡ []
  nil_of_length [] h = refl
  nil_of_length (x ∷ xs) h = absurd (omega arith)

  -- A stream that is polled to its end delivers its content.
  polled_to_end :
      (s : GuardedStream c) (n : ℕ) (bytes : Bytes)
      → s.bytes_sent ≡ 0
      → length s.inner ≤ n
      → content s.inner ≡ (bytes, none)
      → (content (polls c n s).0 ≡ (bytes, none))
        × ((polls c n s).1.bytes_sent ≡ length bytes % 2 ^ 64)
        × ((polls c n s).1.inner ≡ [])
  polled_to_end s n bytes fresh long whole =
      let (split, counted, left) = polls-Delivers c n s (omega arith) in
      let ended : (polls c n s).1.inner ≡ [] = nil_of_length _ (omega (arith, left)) in
      let all : (polls c n s).0 ≡ s.inner =
        sym (append-nil (polls c n s).0) ∙ (rw (← ended) split) in
      let same : content (polls c n s).0 ≡ (bytes, none) = rw all whole in
      let sent : chunk_bytes c (polls c n s).0 ≡ length bytes =
        chunk_bytes-content (polls c n s).0 (ap (λ (r : Bytes × Option c.IoError). r.1) same)
        ∙ ap (λ (r : Bytes × Option c.IoError). length r.0) same in
      (same, omega (arith, counted, sent), ended)

  module _ (upstream : UpstreamRequest c → Result c.Error c.Response) where
    HasFormat-unique :
        (client : c.Client) (src : Text) (f g : ImageFormat)
        → HasFormat c upstream client src f
        → HasFormat c upstream client src g
        → f ≡ g
    HasFormat-unique client src f g (inl h) (inl k) = cc
    HasFormat-unique client src f g (inl h) (inr (k, _)) = absurd (cc)
    HasFormat-unique client src f g (inr (h, _)) (inl k) = absurd (cc)
    HasFormat-unique client src f g (inr (h, (p, e, a))) (inr (k, (q, d, b))) = cc

    is_probed :
        (client : c.Client) (src : Text) (format : ImageFormat) (e : c.Error)
        → HasFormat c upstream client src format
        → detect_format_from_extension c src ≡ none
        → ¬ (probed c upstream client src ≡ err e)
    is_probed client src format e (inl known) unknown failed = cc
    is_probed client src format e (inr (_, (probe, got, _))) unknown failed = cc

    module _ (mutex : MutexLaws c) (readers : ReaderLaws c) where
      -- `packed` is what the upstream sends for the image `plain`.
      abbrev pub Packs : ImageFormat → Bytes → Bytes → Type 0
      Packs gzip packed plain = readers.IsGzip packed plain
      Packs raw packed plain = packed ≡ plain

      stream_content :
          (src : Text) (format : ImageFormat) (response : c.Response) (packed plain : Bytes)
          → Packs format packed plain
          → content (c.bytes_stream response) ≡ (packed, none)
          → content (guarded_stream c src format guard response).inner ≡ (plain, none)
      stream_content src gzip response packed plain packs arrives =
          (gzip_stream_content c readers src guard response plain).1 (
            packed,
            [],
            packs,
            ap (λ (r : Bytes × Option c.Error). r.0) arrives ∙ sym (append-nil packed),
          )
      stream_content src raw response packed plain packs arrives =
          raw_stream_content c readers src guard response ∙ (rw arrives (rw packs refl))

      -- The row of the handler's table for a free lock and an upstream that answers well.
      streams_row :
          (m : c.Mutex) (client : c.Client) (src : Text) (format : ImageFormat)
          (answered response : c.Response) (out : Result ProxyError (ImageResponse c) × c.Mutex)
          → Transfer c upstream mutex m client src out
          → HasFormat c upstream client src format
          → mutex.locked m ≡ false
          → downloaded c upstream client src ≡ ok answered
          → c.error_for_status answered ≡ ok response
          → c.builder_error image_head ≡ none
          → (out.0
              ≡ ok
                  (record { head = image_head; body = guarded_stream c src format guard response }))
            × (mutex.locked out.1 ≡ true)
      streams_row m client src format answered response out row known free got good fine =
          elim row [
            | unprobed e unknown failed _ _ ↦
                absurd (is_probed client src format e known unknown failed)
            | busy f _ taken _ _ ↦ absurd (cc)
            | unreachable f e _ _ failed _ _ ↦ absurd (cc)
            | bad_status f a e _ _ got' bad _ _ ↦ absurd (cc)
            | unbuilt f e _ _ bad _ _ ↦ absurd (cc)
            | streams f a r known' _ got' good' _ shown taken ↦
                let same_format : f ≡ format = HasFormat-unique client src f format known' known in
                let same_answer : a ≡ answered = cc (sym got' ∙ got) in
                let same_response : r ≡ response =
                  cc (sym good' ∙ ap c.error_for_status same_answer ∙ good) in
                (shown ∙ (rw (same_format, same_response) refl), taken)
          ]

      fresh_body :
          (src : Text) (format : ImageFormat) (response : c.Response)
          → (guarded_stream c src format guard response).bytes_sent ≡ 0
      unfolding guarded_stream
      fresh_body src format response = refl

      -- A request that is alone gets the whole image. If the import lock is free, `src` begins with
      -- "http://" or "https://" and names an image of a format that is known by its extension or by
      -- a probe, and the upstream answers the download with a success and sends the image complete
      -- (compressed, if the format is gzip), then the handler answers 200 as HTTP/1.0 with a body
      -- that, polled to its end, delivers exactly the uncompressed image, has counted its bytes
      -- modulo 2 ^ 64; and the lock is locked when the handler returns.
      pub import_delivers :
          (m : c.Mutex) (state : AppState c) (params : ImageParams) (src : Text)
          (format : ImageFormat) (answered response : c.Response) (packed plain : Bytes) (n : ℕ)
          → params.src ≡ some src
          → HasScheme src
          → mutex.locked m ≡ false
          → HasFormat c upstream (chosen state params) src format
          → downloaded c upstream (chosen state params) src ≡ ok answered
          → c.error_for_status answered ≡ ok response
          → c.builder_error image_head ≡ none
          → content (c.bytes_stream response) ≡ (packed, none)
          → Packs format packed plain
          → length (guarded_stream c src format guard response).inner ≤ n
          → let body = guarded_stream c src format guard response in
            let out = run upstream m (handle_image_xva c state params) in
            (out.0 ≡ ok (record { head = image_head; body = body }))
            × (mutex.locked out.1 ≡ true)
            × (content (polls c n body).0 ≡ (plain, none))
            × ((polls c n body).1.bytes_sent ≡ length plain % 2 ^ 64)
      import_delivers m state params src format answered response packed plain n named scheme free
            known got good fine arrives packs long =
          let body = guarded_stream c src format guard response in
          let out = run upstream m (handle_image_xva c state params) in
          let shown : (out.0 ≡ ok (record { head = image_head; body = body }))
              × (mutex.locked out.1 ≡ true) =
            elim (handle_image_xva-Answer c upstream mutex m state params) [
              | no_src absent _ ↦ absurd (cc (sym absent ∙ named))
              | bad_scheme other named' bad _ ↦ absurd (bad (rw (same_src other named') scheme))
              | transferred other named' _ row ↦
                  streams_row m (chosen state params) src format answered response out
                    (subst (λ x. Transfer c upstream mutex m (chosen state params) x out)
                      (same_src other named') row)
                    known free got good fine
            ] in
          let whole = stream_content src format response packed plain packs arrives in
          let sent = polled_to_end body n plain (fresh_body src format response) long whole in
          (shown.0, shown.1, sent.0, sent.1)
        where
          same_src : (other : Text) → params.src ≡ some other → other ≡ src
          same_src other named' = ap (unwrap_or src) (sym named' ∙ named)
