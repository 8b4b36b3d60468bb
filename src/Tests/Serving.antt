-- ===== src/Tests/Serving.antt =====
-- Servers at concrete histories.
use xoa_proxy.Prelude.{set, ◌+◌, map, ◌%◌, ◌≤◌, ◌≡◌, refl, inl, true, false, List, [], ◌∷◌, arith}
use xoa_proxy.Rust.Text.{Text, codes, text_eq, starts_with, ends_with, to_lowercase, lower}
use xoa_proxy.Rust.Result.{ok, err}
use xoa_proxy.Format.{gzip}
use xoa_proxy.Stream.{client_settings, fetch_xva_stream, guarded_stream, pipeline, poll_next}
use xoa_proxy.Lifecycle.Activity.{usize_mod, new_activity, enter, leave, increment, decrement}
use xoa_proxy.Handler.{
  handle_image_xva, transfer, validate_src, select_client, detect_format,
  detect_format_from_extension, format_of_path, build_response, handle_not_found,
}
use xoa_proxy.Server.{
  Server, gone, image, unknown_path, Action, arrives, answers, polls, drops, step, start, history,
  arrive, serve, advance, resume, poll_body, release,
}
use xoa_proxy.Server.Count.{total, one_if}
use xoa_proxy.Server.Invariant.{Inv}
use xoa_proxy.Server.Steps.{history-start-Inv}
use xoa_proxy.Server.Imports.{transfers, one_transfer, nothing_leaks}
use xoa_proxy.Server.Release.{drops-release}
use xoa_proxy.Server.Admission.{Admission, arrive-Admission}
use xoa_proxy.Server.Refinement.Settling.{two_answers_settle}
use xoa_proxy.Server.Phases.{Awaits, Moves, is_busy, is_live, count, streaming, refused}
use xoa_proxy.Server.Refinement.{view, label}
use xoa_proxy.Server.Refinement.Histories.{history-Refines}
use xoa_proxy.Error.{import_in_progress}
use xoa_proxy.Tests.Example.{example_crates, example_mutex, example_watch}
use xoa_proxy.Tests.Streams.{packed_reply}
use xoa_proxy.Tests.Handling.{get_image}

-- The definitions that a history computes with.
abbrev pub packed_image : Text
packed_image = codes "http://h/a.xva.gz"

-- Two imports; the first one is answered while the second gets 409.
abbrev pub two_imports : List (Action example_crates)
two_imports =
    arrives (image (get_image packed_image))
    ∷ arrives (image (get_image packed_image))
    ∷ answers 0 (ok packed_reply)
    ∷ polls 0
    ∷ []

abbrev pub all_ended : List (Action example_crates)
all_ended =
    arrives (image (get_image packed_image))
    ∷ arrives (unknown_path (codes "/"))
    ∷ drops 1
    ∷ drops 0
    ∷ []

abbrev pub fresh : Server example_crates
fresh = start example_crates (client_settings true) (client_settings false)

after_two :
    (total (transfers example_crates) (history example_crates fresh two_imports).tasks ≡ 1)
    × ((history example_crates fresh two_imports).app.import_lock ≡ true)
    × ((history example_crates fresh two_imports).activity ≡ (2, 2))
unfolding history step arrive serve advance resume poll_body release start new_activity enter leave
    increment decrement handle_image_xva transfer validate_src select_client detect_format
    detect_format_from_extension format_of_path starts_with ends_with text_eq to_lowercase lower
    fetch_xva_stream guarded_stream pipeline build_response poll_next
after_two = (refl, refl, refl)

one_transfer_example :
    total (transfers example_crates) (history example_crates fresh two_imports).tasks ≤ 1
one_transfer_example =
    one_transfer example_crates example_mutex example_watch (client_settings true)
      (client_settings false) two_imports

history-start-Inv_example :
    Inv example_crates example_mutex (history example_crates fresh two_imports)
history-start-Inv_example =
    history-start-Inv example_crates example_mutex example_watch (client_settings true)
      (client_settings false) two_imports

nothing_leaks_example :
    ((history example_crates fresh all_ended).app.import_lock ≡ false)
    × ((history example_crates fresh all_ended).activity.0 ≡ 0)
unfolding history step arrive serve advance resume poll_body release start new_activity enter leave
    increment decrement handle_image_xva transfer validate_src select_client detect_format
    detect_format_from_extension format_of_path starts_with ends_with text_eq to_lowercase lower
    fetch_xva_stream handle_not_found
nothing_leaks_example =
    nothing_leaks example_crates example_mutex example_watch (client_settings true)
      (client_settings false) all_ended refl

-- The client of the first import goes away, and the second request is still active.
drops-release_example :
    ((step example_crates (history example_crates fresh two_imports) (drops 0)).tasks
      ≡ set (history example_crates fresh two_imports).tasks 0 gone)
    × (one_if
            (step example_crates
              (history example_crates fresh two_imports)
              (drops 0)).app.import_lock
          + 1
        ≡ 1)
    × ((step example_crates (history example_crates fresh two_imports) (drops 0)).activity.0 ≡ 1)
unfolding history step arrive serve advance resume poll_body start new_activity enter leave
    increment decrement handle_image_xva transfer validate_src select_client detect_format
    detect_format_from_extension format_of_path starts_with ends_with text_eq to_lowercase lower
    fetch_xva_stream guarded_stream pipeline build_response poll_next
drops-release_example =
    drops-release example_crates example_mutex example_watch
      (history example_crates fresh two_imports) 0 _
      (history-start-Inv example_crates example_mutex example_watch (client_settings true)
        (client_settings false) two_imports)
      refl

arrive-Admission_example :
    Admission example_crates example_mutex fresh packed_image
      (arrive example_crates fresh (image (get_image packed_image)))
unfolding detect_format_from_extension format_of_path ends_with text_eq to_lowercase lower
arrive-Admission_example =
    arrive-Admission example_crates example_mutex fresh (get_image packed_image) packed_image gzip
      refl (inl (codes "h/a.xva.gz", refl)) refl

-- The second import is answered by 409, and the first one is streaming.
history-Refines_example :
    Moves
      (map (label example_crates) two_imports)
      []
      (view example_crates (history example_crates fresh two_imports).tasks)
    × ((history example_crates fresh two_imports).app.import_lock
        ≡ is_busy (view example_crates (history example_crates fresh two_imports).tasks))
    × ((history example_crates fresh two_imports).activity.0
        ≡ count is_live (view example_crates (history example_crates fresh two_imports).tasks)
          % usize_mod)
history-Refines_example =
    history-Refines example_crates example_mutex example_watch (client_settings true)
      (client_settings false) two_imports

two_imports_phases :
    view example_crates (history example_crates fresh two_imports).tasks
    ≡ streaming ∷ refused import_in_progress ∷ []
unfolding history step arrive serve advance resume poll_body start new_activity enter leave
    increment decrement handle_image_xva transfer validate_src select_client detect_format
    detect_format_from_extension format_of_path starts_with ends_with text_eq to_lowercase lower
    fetch_xva_stream guarded_stream pipeline build_response poll_next
two_imports_phases = refl

-- The first import is streaming when its client goes away; the next one gets the lock.
abbrev after_drop : Server example_crates
after_drop = step example_crates (history example_crates fresh two_imports) (drops 0)

-- An import that has arrived is answered by the upstream once, and once more when nothing waits.
two_answers_settle_example : ¬ Awaits streaming
unfolding history step arrive serve advance resume poll_body start new_activity enter leave
    increment decrement release handle_image_xva transfer validate_src select_client detect_format
    detect_format_from_extension format_of_path starts_with ends_with text_eq to_lowercase lower
    fetch_xva_stream guarded_stream pipeline build_response poll_next
two_answers_settle_example =
    two_answers_settle example_crates example_mutex example_watch (client_settings true)
      (client_settings false) (arrives (image (get_image packed_image)) ∷ [])
      (answers 0 (ok packed_reply) ∷ polls 0 ∷ answers 0 (err 5) ∷ []) 0 streaming (omega arith)
      (omega arith) refl
