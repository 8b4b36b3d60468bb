-- ===== src/Tests/Probing.antt =====
-- An import whose format a probe tells, among other requests.
use xoa_proxy.Prelude.{get_elem?, some, ◌≡◌, refl, inl, inr, true, false, List, [], ◌∷◌, arith}
use xoa_proxy.Rust.Text.{
  Text, codes, text_eq, starts_with, ends_with, contains, to_lowercase, lower,
}
use xoa_proxy.Rust.Result.{ok, err}
use xoa_proxy.Error.{import_in_progress}
use xoa_proxy.Format.{raw}
use xoa_proxy.Stream.{guard, client_settings, fetch_xva_stream, guarded_stream, pipeline, poll_next}
use xoa_proxy.Lifecycle.Activity.{new_activity, enter, leave, increment, decrement}
use xoa_proxy.Handler.{
  image_head, handle_image_xva, transfer, validate_src, select_client, detect_format,
  detect_format_from_extension, format_of_path, format_of_headers, header_text, build_response,
}
use xoa_proxy.Server.{
  Server, responding, image, Action, arrives, answers, polls, drops, step, start, history, arrive,
  serve, advance, resume, poll_body, release,
}
use xoa_proxy.Server.Steps.{history-start-Inv}
use xoa_proxy.Server.Probing.{probed_import_refused, probed_import_undisturbed}
use xoa_proxy.Server.Isolation.Outcome.{polled}
use xoa_proxy.Tests.Example.{example_crates, example_mutex, example_watch}
use xoa_proxy.Tests.Streams.{packed_reply}
use xoa_proxy.Tests.Handling.{get_image}
use xoa_proxy.Tests.Serving.{fresh, two_imports, packed_image}

abbrev unnamed : Text
unnamed = codes "http://h/image"

-- One import is streaming, and another one has been refused; the third one is probed.
abbrev probing_after : List (Action example_crates) → Server example_crates
probing_after before =
    history example_crates
      (arrive example_crates (history example_crates fresh two_imports) (image (get_image unnamed)))
      before

abbrev still_busy : Server example_crates
still_busy = probing_after (polls 0 ∷ [])

abbrev turned_away : Server example_crates
turned_away = step example_crates still_busy (answers 2 (ok packed_reply))

-- The first import still streams when the probe is answered.
probed_import_refused_example :
    (get_elem? turned_away.tasks 2 ≡ some (responding (err import_in_progress)))
    × (turned_away.app.import_lock ≡ still_busy.app.import_lock)
unfolding history step arrive serve advance resume poll_body release start new_activity enter leave
    increment decrement handle_image_xva transfer validate_src select_client detect_format
    detect_format_from_extension format_of_path starts_with ends_with text_eq to_lowercase lower
    fetch_xva_stream guarded_stream pipeline build_response poll_next
probed_import_refused_example =
    probed_import_refused example_crates example_mutex (history example_crates fresh two_imports)
      (polls 0 ∷ []) (get_image unnamed) unnamed (ok packed_reply) refl
      (inl (codes "h/image", refl)) refl (tt, tt) (inr refl)

abbrev served : Server example_crates
served =
    history example_crates
      (step example_crates
        (history example_crates
          (step example_crates (probing_after (drops 0 ∷ [])) (answers 2 (ok packed_reply)))
          (arrives (image (get_image packed_image)) ∷ polls 2 ∷ []))
        (answers 2 (ok packed_reply)))
      (drops 3 ∷ polls 2 ∷ [])

-- The first import ends before the probe is answered, and a fourth one comes too late.
probed_import_undisturbed_example :
    (get_elem? served.tasks 2
      ≡ some (
          responding (
            ok (record {
              head = image_head;
              body =
                  polled example_crates 1
                    (guarded_stream example_crates unnamed raw guard packed_reply);
            }))))
    × (served.app.import_lock ≡ true)
unfolding history step arrive serve advance resume poll_body release start new_activity enter leave
    increment decrement handle_image_xva transfer validate_src select_client detect_format
    detect_format_from_extension format_of_path format_of_headers header_text starts_with ends_with
    text_eq contains to_lowercase lower fetch_xva_stream guarded_stream pipeline build_response
    poll_next
probed_import_undisturbed_example =
    probed_import_undisturbed example_crates example_mutex example_watch
      (history example_crates fresh two_imports) (drops 0 ∷ [])
      (arrives (image (get_image packed_image)) ∷ polls 2 ∷ []) (drops 3 ∷ polls 2 ∷ [])
      (get_image unnamed) unnamed packed_reply packed_reply packed_reply
      (history-start-Inv example_crates example_mutex example_watch (client_settings true)
        (client_settings false) two_imports)
      refl (inl (codes "h/image", refl)) refl refl refl ((λ e. omega (arith, e)), tt) (tt, (tt, tt))
      ((λ e. omega (arith, e)), (tt, tt)) refl
