-- ===== src/Tests/Streams.antt =====
-- Guarded streams and the idle future at concrete inputs.
use xoa_proxy.Prelude.{
  ◌+◌, ◌-◌, ◌*◌, ◌^◌, ◌≤◌, ◌<◌, ◌≡◌, ◌↔◌, ◌++◌, refl, none, some, [], ◌∷◌, arith,
}
use xoa_proxy.Rust.Text.{codes}
use xoa_proxy.Rust.Result.{ok, err}
use xoa_proxy.Rust.Float.{round_f64}
use xoa_proxy.Crates.{Bytes, pending, ready}
use xoa_proxy.Crates.Laws.{content}
use xoa_proxy.Format.{gzip, raw}
use xoa_proxy.Stream.{guard, GuardedStream, guarded_stream, pipeline, poll_next}
use xoa_proxy.Stream.Laws.{
  Delivers, polls, chunk_bytes, polls-Delivers, gzip_stream_content, raw_stream_content,
}
use xoa_proxy.Gib.{bytes_to_gib}
use xoa_proxy.Stream.Report.{drop}
use xoa_proxy.Stream.Report.Laws.{drop-reports}
use xoa_proxy.Lifecycle.Idle.{start_idle, poll_idle, turn}
use xoa_proxy.Lifecycle.Idle.Progress.{IsSettled, poll_idle-IsSettled}
use xoa_proxy.Tests.Example.{Reply, example_crates, example_watch, example_readers}

abbrev pub packed_reply : Reply
packed_reply = record {
  status = 200;
  content_type = none;
  content_encoding = none;
  body = ready (ok (0x1f ∷ 3 ∷ 7 ∷ [])) ∷ pending ∷ ready (ok (8 ∷ 9 ∷ [])) ∷ [];
}

abbrev pub broken_reply : Reply
broken_reply = record {
  status = 200;
  content_type = none;
  content_encoding = none;
  body = ready (ok (1 ∷ 2 ∷ [])) ∷ ready (err 5) ∷ [];
}

-- Two members, one after the other.
abbrev two_members : Reply
two_members = record {
  status = 200;
  content_type = none;
  content_encoding = none;
  body = ready (ok (0x1f ∷ 2 ∷ 7 ∷ 8 ∷ 0x1f ∷ [])) ∷ ready (ok (1 ∷ 9 ∷ [])) ∷ [];
}

-- The second member is lost.
second_member_lost :
    content (guarded_stream example_crates (codes "http://h/a") gzip guard two_members).inner
    ≡ (7 ∷ 8 ∷ [], none)
unfolding guarded_stream pipeline
second_member_lost = refl

gzip_stream_content_example :
    (content (guarded_stream example_crates (codes "http://h/a") gzip guard two_members).inner
      ≡ (7 ∷ 8 ∷ [], none))
    ↔ ((packed : Bytes) × (rest : Bytes) × (packed ≡ 0x1f ∷ 2 ∷ 7 ∷ 8 ∷ [])
        × (0x1f ∷ 2 ∷ 7 ∷ 8 ∷ 0x1f ∷ 1 ∷ 9 ∷ [] ≡ packed ++ rest))
gzip_stream_content_example =
    gzip_stream_content example_crates example_readers (codes "http://h/a") guard two_members
      (7 ∷ 8 ∷ [])

raw_stream_content_example :
    content (guarded_stream example_crates (codes "http://h/a") raw guard broken_reply).inner
    ≡ (1 ∷ 2 ∷ [], some 5)
raw_stream_content_example =
    raw_stream_content example_crates example_readers (codes "http://h/a") guard broken_reply

abbrev sending : GuardedStream example_crates
sending = record {
  inner = ready (ok (1 ∷ 2 ∷ [])) ∷ pending ∷ ready (err 5) ∷ ready (ok (3 ∷ [])) ∷ [];
  held = guard;
  bytes_sent = 2 ^ 64 - 1;
  src_url = codes "http://h/a";
  format = raw;
}

-- The counter wraps.
sent_three : (polls example_crates 4 sending).1.bytes_sent ≡ 2
unfolding poll_next
sent_three = refl

polls-Delivers_example : Delivers example_crates 2 sending
polls-Delivers_example = polls-Delivers example_crates 2 sending (omega arith)

-- Two bytes are sent when the stream breaks off and is dropped.
abbrev broken_stream : GuardedStream example_crates
broken_stream = guarded_stream example_crates (codes "http://h/a") raw guard broken_reply

drop-reports_example :
    ((drop example_crates (polls example_crates 2 broken_stream).1).bytes_sent
      ≡ chunk_bytes example_crates (polls example_crates 2 broken_stream).0)
    × ((drop example_crates (polls example_crates 2 broken_stream).1).gib * 2 ^ 30
        ≤ chunk_bytes example_crates (polls example_crates 2 broken_stream).0 * 100)
    × (chunk_bytes example_crates (polls example_crates 2 broken_stream).0 * 100
        < ((drop example_crates (polls example_crates 2 broken_stream).1).gib + 1) * 2 ^ 30)
unfolding guarded_stream pipeline poll_next
drop-reports_example =
    drop-reports example_crates (codes "http://h/a") raw guard broken_reply 2 (omega arith)

-- 5 GB are 4.65 GiB.
five_gigabytes : bytes_to_gib 5_000_000_000 ≡ 465
unfolding bytes_to_gib round_f64
five_gigabytes = refl

poll_idle-IsSettled_example :
    IsSettled example_crates example_watch 60
      (0, 0)
      5
      (poll_idle example_crates 60 5 (0, 0) (start_idle example_crates (0, 0)))
    × (turn example_crates 60 5
          (0, 0)
          (poll_idle example_crates 60 5 (0, 0) (start_idle example_crates (0, 0)))
        ≡ poll_idle example_crates 60 5 (0, 0) (start_idle example_crates (0, 0)))
poll_idle-IsSettled_example =
    poll_idle-IsSettled example_crates example_watch 60 (0, 0) 5 (start_idle example_crates (0, 0))
