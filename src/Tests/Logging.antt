-- ===== src/Tests/Logging.antt =====
-- The log of concrete histories.
use xoa_proxy.Prelude.{◌≡◌, refl, inl, true, false, none, [], ◌∷◌, arith}
use xoa_proxy.Rust.Text.{codes, text_eq, starts_with, ends_with, to_lowercase, lower}
use xoa_proxy.Rust.Float.{round_f64}
use xoa_proxy.Rust.Number.Print.{print_uint}
use xoa_proxy.Format.{gzip, to_string}
use xoa_proxy.Gib.{bytes_to_gib, print_gib}
use xoa_proxy.Log.{
  info, warn, render, import_received, extension_detected, lock_acquired, upstream_connected,
  finished, http_error,
}
use xoa_proxy.Error.{error_line, into_response}
use xoa_proxy.Stream.{
  client_settings, fetch_xva_stream, guarded_stream, pipeline, poll_next, connected_line, poll_log,
  log_item,
}
use xoa_proxy.Lifecycle.Activity.{new_activity, enter, leave, increment, decrement}
use xoa_proxy.Handler.{
  handle_image_xva, transfer, validate_src, select_client, detect_format,
  detect_format_from_extension, format_of_path, build_response, handle_not_found,
}
use xoa_proxy.Server.{
  drops, step, start, history, arrive, serve, advance, resume, poll_body, release,
}
use xoa_proxy.Server.Steps.{history-start-Inv}
use xoa_proxy.Server.Lines.{
  step_log, history_log, says, resume_log, poll_body_log, release_log, acquired_lines, error_lines,
}
use xoa_proxy.Server.Lines.Ledger.{lock_is_logged, errors_are_logged}
use xoa_proxy.Server.Lines.Ending.{import_reports}
use xoa_proxy.Tests.Example.{example_crates, example_mutex, example_watch}
use xoa_proxy.Tests.Streams.{packed_reply}
use xoa_proxy.Tests.Handling.{get_image}
use xoa_proxy.Tests.Serving.{fresh, two_imports, all_ended, packed_image}
use xoa_proxy.Tests.Interleaving.{idle_server, meanwhile, afterwards, served}

-- The first import streams, and the second one is told to come later.
two_imports_log :
    history_log example_crates fresh two_imports
    ≡ import_received packed_image true
      ∷ extension_detected packed_image gzip
      ∷ lock_acquired packed_image gzip
      ∷ import_received packed_image true
      ∷ extension_detected packed_image gzip
      ∷ http_error 409
          (codes "An import is already in progress. Only one concurrent import is allowed.")
      ∷ upstream_connected 200 none (codes "unknown") gzip
      ∷ []
unfolding history_log step_log says resume_log poll_body_log release_log step arrive serve advance
    resume poll_body release start new_activity enter leave increment decrement handle_image_xva
    transfer validate_src select_client detect_format detect_format_from_extension format_of_path
    starts_with ends_with text_eq to_lowercase lower fetch_xva_stream guarded_stream pipeline
    build_response poll_next connected_line error_line into_response poll_log log_item
two_imports_log = refl

lock_is_logged_example : acquired_lines (history_log example_crates fresh two_imports) ≡ 1
unfolding history step arrive serve advance resume poll_body release start new_activity enter leave
    increment decrement handle_image_xva transfer validate_src select_client detect_format
    detect_format_from_extension format_of_path starts_with ends_with text_eq to_lowercase lower
    fetch_xva_stream guarded_stream pipeline build_response poll_next
lock_is_logged_example =
    lock_is_logged example_crates example_mutex example_watch (client_settings true)
      (client_settings false) two_imports

errors_are_logged_example :
    error_lines (history_log example_crates fresh two_imports)
    ≡ (409, codes "An import is already in progress. Only one concurrent import is allowed.") ∷ []
unfolding history step arrive serve advance resume poll_body release start new_activity enter leave
    increment decrement handle_image_xva transfer validate_src select_client detect_format
    detect_format_from_extension format_of_path starts_with ends_with text_eq to_lowercase lower
    fetch_xva_stream guarded_stream pipeline build_response poll_next into_response
errors_are_logged_example =
    errors_are_logged example_crates example_mutex example_watch (client_settings true)
      (client_settings false) two_imports

-- The three bytes of the image have been delivered.
import_reports_example :
    (step_log example_crates served (drops 2)
      ≡ finished (record { src = packed_image; format = codes "gzip"; bytes_sent = 3; gib = 0 })
        ∷ [])
    × ((step example_crates served (drops 2)).app.import_lock ≡ false)
unfolding history step arrive serve advance resume start new_activity enter leave increment
    decrement release handle_image_xva transfer validate_src select_client detect_format
    detect_format_from_extension format_of_path starts_with ends_with text_eq to_lowercase lower
    fetch_xva_stream handle_not_found guarded_stream pipeline poll_next to_string bytes_to_gib
    round_f64
import_reports_example =
    import_reports example_crates example_mutex example_watch idle_server meanwhile afterwards
      (get_image packed_image) packed_image gzip packed_reply packed_reply
      (history-start-Inv example_crates example_mutex example_watch (client_settings true)
        (client_settings false) all_ended)
      refl refl (inl (codes "h/a.xva.gz", refl)) refl refl refl
      (tt, (λ e. omega (arith, e), (tt, (λ e. omega (arith, e), tt))))
      (tt, (λ e. omega (arith, e), (tt, (tt, tt))))

finished_line :
    render
      (finished (record { src = packed_image; format = codes "gzip"; bytes_sent = 42; gib = 465 }))
    ≡ (
      info,
      codes "XVA stream finished — 4.65 GiB transferred; import lock released",
      (codes "src", packed_image)
          ∷ (codes "format", codes "gzip")
          ∷ (codes "bytes_sent", codes "42")
          ∷ [],
    )
unfolding render print_gib print_uint
finished_line = refl

connected_without_length : render (upstream_connected 200 none (codes "unknown") gzip) ≡ (
  info,
  codes
      "Upstream connected: status=200, content_length=unknown GiB, content_type=unknown, format=gzip",
  [],
)
unfolding render print_uint to_string
connected_without_length = refl

rendered_error :
    render (http_error 404 (codes "x"))
    ≡ (warn, codes "HTTP error", (codes "status", codes "404") ∷ (codes "detail", codes "x") ∷ [])
unfolding render print_uint
rendered_error = refl
