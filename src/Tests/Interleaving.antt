-- ===== src/Tests/Interleaving.antt =====
-- An import whose actions interleave with those of other requests.
use xoa_proxy.Prelude.{get_elem?, some, ◌≡◌, refl, inl, true, false, List, [], ◌∷◌, arith}
use xoa_proxy.Rust.Text.{codes, text_eq, starts_with, ends_with, to_lowercase, lower}
use xoa_proxy.Rust.Result.{ok, err}
use xoa_proxy.Format.{gzip}
use xoa_proxy.Stream.{guard, client_settings, fetch_xva_stream, guarded_stream}
use xoa_proxy.Lifecycle.Activity.{new_activity, enter, leave, increment, decrement}
use xoa_proxy.Handler.{
  image_head, handle_image_xva, transfer, validate_src, select_client, detect_format,
  detect_format_from_extension, format_of_path, handle_not_found,
}
use xoa_proxy.Server.{
  Server, responding, image, Action, arrives, answers, polls, drops, step, start, history, arrive,
  serve, advance, resume, release,
}
use xoa_proxy.Server.Steps.{history-start-Inv}
use xoa_proxy.Server.Service.{import_undisturbed}
use xoa_proxy.Server.Isolation.Outcome.{polled}
use xoa_proxy.Tests.Example.{example_crates, example_mutex, example_watch}
use xoa_proxy.Tests.Streams.{packed_reply}
use xoa_proxy.Tests.Handling.{get_image}
use xoa_proxy.Tests.Serving.{fresh, all_ended, packed_image}

-- Two requests have ended; the third one is an import.
abbrev pub idle_server : Server example_crates
idle_server = history example_crates fresh all_ended

abbrev pub meanwhile : List (Action example_crates)
meanwhile =
    arrives (image (get_image packed_image)) ∷ answers 3 (ok packed_reply) ∷ polls 2 ∷ drops 0 ∷ []

abbrev pub afterwards : List (Action example_crates)
afterwards = polls 2 ∷ drops 3 ∷ answers 2 (err 5) ∷ polls 2 ∷ []

abbrev pub served : Server example_crates
served =
    history example_crates
      (step example_crates
        (history example_crates (arrive example_crates idle_server (image (get_image packed_image)))
          meanwhile)
        (answers 2 (ok packed_reply)))
      afterwards

import_undisturbed_example :
    (get_elem? served.tasks 2
      ≡ some (
          responding (
            ok (record {
              head = image_head;
              body =
                  polled example_crates 2
                    (guarded_stream example_crates packed_image gzip guard packed_reply);
            }))))
    × (served.app.import_lock ≡ true)
unfolding history step arrive serve advance resume start new_activity enter leave increment
    decrement release handle_image_xva transfer validate_src select_client detect_format
    detect_format_from_extension format_of_path starts_with ends_with text_eq to_lowercase lower
    fetch_xva_stream handle_not_found
import_undisturbed_example =
    import_undisturbed example_crates example_mutex example_watch idle_server meanwhile afterwards
      (get_image packed_image) packed_image gzip packed_reply packed_reply
      (history-start-Inv example_crates example_mutex example_watch (client_settings true)
        (client_settings false) all_ended)
      refl refl (inl (codes "h/a.xva.gz", refl)) refl refl refl
      (tt, (λ e. omega (arith, e), (tt, (λ e. omega (arith, e), tt))))
      (tt, (λ e. omega (arith, e), (tt, (tt, tt))))
