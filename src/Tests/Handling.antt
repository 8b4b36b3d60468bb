-- ===== src/Tests/Handling.antt =====
-- The handler at concrete requests: the cases of tests/integration.rs, and the theorems at inputs.
use xoa_proxy.Prelude.{
  ℕ, ◌≡◌, refl, ◌↔◌, ◌⊎◌, true, false, Bool, none, some, [], ◌∷◌, ◌%◌, ◌^◌, inl, inr, arith,
}
use xoa_proxy.Rust.Text.{
  Text, codes, text_eq, starts_with, ends_with, contains, to_lowercase, lower,
}
use xoa_proxy.Rust.Result.{Result, ok, err}
use xoa_proxy.Crates.{content_type, content_encoding}
use xoa_proxy.Error.{into_response, ProxyError}
use xoa_proxy.Format.{gzip}
use xoa_proxy.State.{AppState}
use xoa_proxy.Async.{Method, UpstreamRequest}
use xoa_proxy.Async.Run.{run}
use xoa_proxy.Async.Discipline.{Keeps}
use xoa_proxy.Crates.Laws.{content}
use xoa_proxy.Stream.{client_settings, fetch_xva_stream, guard, guarded_stream, pipeline}
use xoa_proxy.Stream.Laws.{polls}
use xoa_proxy.Handler.{
  ImageParams, ImageResponse, handle_image_xva, transfer, validate_src, select_client,
  detect_format, detect_format_from_extension, format_of_path, format_of_headers, header_text,
  build_response, image_head,
}
use xoa_proxy.Handler.Source.{HasScheme}
use xoa_proxy.Handler.Traffic.{Allowed, handle_image_xva-Keeps}
use xoa_proxy.Handler.Detection.{Mentions, format_of_headers_iff}
use xoa_proxy.Handler.Decision.{Answer}
use xoa_proxy.Handler.Answers.{handle_image_xva-Answer}
use xoa_proxy.Handler.Course.{Starts, handle_image_xva-Starts}
use xoa_proxy.Handler.Delivery.{import_delivers}
use xoa_proxy.Tests.Example.{Reply, example_crates, example_mutex, example_readers}
use xoa_proxy.Tests.Streams.{packed_reply}

abbrev pub example_state : AppState example_crates
example_state = record {
  client_verify = client_settings true;
  client_no_verify = client_settings false;
  import_lock = false;
}

abbrev pub probe_reply : Reply
probe_reply = record {
  status = 200;
  content_type = some (codes "application/X-GZIP");
  content_encoding = none;
  body = [];
}

-- A HEAD request is answered by a gzip content type, and a GET request by packed data.
abbrev pub answering : UpstreamRequest example_crates → Result ℕ Reply
answering q = elim q.method [ Method.head ↦ ok probe_reply | Method.get ↦ ok packed_reply ]

abbrev pub get_image : Text → ImageParams
get_image src = record { src = some src; verify_ssl = none }

-- The status of a result.
abbrev status_of : Result ProxyError (ImageResponse example_crates) × Bool → ℕ
status_of (ok response, m) = response.head.status
status_of (err e, m) = (into_response e).0

unnamed_image :
    status_of (
      run answering false
        (handle_image_xva example_crates example_state (get_image (codes "http://h/image"))))
    ≡ 200
unfolding handle_image_xva run transfer validate_src select_client detect_format
    detect_format_from_extension format_of_path format_of_headers header_text build_response
    fetch_xva_stream starts_with ends_with text_eq contains to_lowercase lower
unnamed_image = refl

locked_image :
    status_of (
      run answering true
        (handle_image_xva example_crates example_state (get_image (codes "http://h/image.xva"))))
    ≡ 409
unfolding handle_image_xva run transfer validate_src select_client detect_format into_response
    detect_format_from_extension format_of_path starts_with ends_with text_eq to_lowercase lower
locked_image = refl

unreachable_image :
    status_of (
      run
        (λ q. err 7)
        false
        (handle_image_xva example_crates example_state (get_image (codes "https://h/image.xva"))))
    ≡ 502
unfolding handle_image_xva run transfer validate_src select_client detect_format into_response
    detect_format_from_extension format_of_path starts_with ends_with text_eq to_lowercase lower
    fetch_xva_stream
unreachable_image = refl

handle_image_xva-Answer_example :
    Answer example_crates answering example_mutex false example_state
      (get_image (codes "http://h/image"))
      (run answering false
        (handle_image_xva example_crates example_state (get_image (codes "http://h/image"))))
handle_image_xva-Answer_example =
    handle_image_xva-Answer example_crates answering example_mutex false example_state
      (get_image (codes "http://h/image"))

handle_image_xva-Keeps_example :
    Keeps
      (λ held q.
        (src : Text) × (some (codes "http://h/image") ≡ some src)
        × HasScheme src
        × Allowed example_crates (client_settings true) src held q)
      true
      false
      (handle_image_xva example_crates example_state (get_image (codes "http://h/image")))
handle_image_xva-Keeps_example =
    handle_image_xva-Keeps example_crates example_state (get_image (codes "http://h/image"))

format_of_headers_iff_example : (format_of_headers example_crates probe_reply ≡ gzip) ↔ (
    Mentions example_crates content_type probe_reply (codes "gzip")
    ⊎ Mentions example_crates content_encoding probe_reply (codes "gzip"))
format_of_headers_iff_example = format_of_headers_iff example_crates probe_reply

-- An image without an extension that is announced as gzip and sent in two pieces.
import_delivers_example :
    ((run answering false
        (handle_image_xva example_crates example_state (get_image (codes "http://h/image")))).0
      ≡ ok (record {
        head = image_head;
        body = guarded_stream example_crates (codes "http://h/image") gzip guard packed_reply;
      }))
    × ((run answering false
          (handle_image_xva example_crates example_state (get_image (codes "http://h/image")))).1
        ≡ true)
    × (content
          (polls example_crates 4
            (guarded_stream example_crates (codes "http://h/image") gzip guard packed_reply)).0
        ≡ (7 ∷ 8 ∷ 9 ∷ [], none))
    × ((polls example_crates 4 (
          guarded_stream example_crates
            (codes "http://h/image")
            gzip
            guard
            packed_reply)).1.bytes_sent
        ≡ 3 % 2 ^ 64)
unfolding detect_format_from_extension format_of_path format_of_headers header_text ends_with
    text_eq contains starts_with to_lowercase lower guarded_stream pipeline
import_delivers_example =
    import_delivers example_crates answering example_mutex example_readers false example_state
      (get_image (codes "http://h/image")) (codes "http://h/image") gzip packed_reply packed_reply
      (0x1f ∷ 3 ∷ 7 ∷ 8 ∷ 9 ∷ []) (7 ∷ 8 ∷ 9 ∷ []) 4 refl (inl (codes "h/image", refl)) refl
      (inr (refl, (probe_reply, refl, refl))) refl refl refl refl refl (omega arith)

handle_image_xva-Starts_example :
    Starts (handle_image_xva example_crates example_state (get_image (codes "http://h/image")))
handle_image_xva-Starts_example =
    handle_image_xva-Starts example_crates example_state (get_image (codes "http://h/image"))
