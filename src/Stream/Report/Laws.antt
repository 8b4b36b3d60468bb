-- ===== src/Stream/Report/Laws.antt =====
-- What the last line of a stream tells of it.
use xoa_proxy.Prelude.{
  zero, suc, refl, ◌%◌, List, [], ◌∷◌, length, ℕ, ◌+◌, ◌*◌, ◌/◌, ◌^◌, ◌≤◌, ◌<◌, ◌≡◌, ap, ◌∙◌, arith,
}
use xoa_proxy.Rust.Text.{Text}
use xoa_proxy.Rust.Float.{round_f64, round_f64-exact}
use xoa_proxy.Crates.{Crates, Poll, pending, ready}
use xoa_proxy.Rust.Result.{ok, err}
use xoa_proxy.Log.{Finished}
use xoa_proxy.Format.{ImageFormat, to_string}
use xoa_proxy.Stream.{OwnedMutexGuard, GuardedStream, guarded_stream, poll_next, count_item}
use xoa_proxy.Stream.Laws.{stream_of, polls, chunk_bytes, polls-Delivers}
use xoa_proxy.Gib.{bytes_to_gib}
use xoa_proxy.Stream.Report.{drop}

bytes_to_gib-exact : (bytes : ℕ) → bytes * 100 < 2 ^ 53 → bytes_to_gib bytes ≡ bytes * 100 / 2 ^ 30
unfolding bytes_to_gib
bytes_to_gib-exact bytes few =
    ap (λ n. round_f64 (n * 100) / 2 ^ 30) (round_f64-exact bytes (omega arith))
    ∙ ap (λ n. n / 2 ^ 30) (round_f64-exact (bytes * 100) few)

module _ (c : Crates) where
  stream_of-origin :
      (n : ℕ) (inner : List (Poll c.IoError)) (sent : ℕ) (held : OwnedMutexGuard) (src : Text)
      (format : ImageFormat)
      → let s = (polls c n (stream_of c inner sent held src format)).1 in
        (s.src_url ≡ src) × (s.format ≡ format)
  unfolding poll_next count_item
  stream_of-origin zero inner sent held src format = (refl, refl)
  stream_of-origin (suc n) [] sent held src format = (refl, refl)
  stream_of-origin (suc n) (pending ∷ rest) sent held src format =
      stream_of-origin n rest sent held src format
  stream_of-origin (suc n) (ready (ok b) ∷ rest) sent held src format =
      stream_of-origin n rest ((sent + length b) % 2 ^ 64) held src format
  stream_of-origin (suc n) (ready (err e) ∷ rest) sent held src format =
      stream_of-origin n rest sent held src format

  -- What a stream that has delivered `sent` bytes logs.
  abbrev pub report : Text → ImageFormat → ℕ → Finished
  report src format sent = record {
    src = src;
    format = to_string format;
    bytes_sent = sent % 2 ^ 64;
    gib = bytes_to_gib (sent % 2 ^ 64);
  }

  drop-fields :
      (s : GuardedStream c) (src : Text) (format : ImageFormat) (sent : ℕ)
      → s.src_url ≡ src
      → s.format ≡ format
      → s.bytes_sent ≡ sent % 2 ^ 64
      → drop c s ≡ report src format sent
  unfolding drop
  drop-fields s src format sent same_src same_format count = rw (same_src, same_format, count) refl

  pub drop-polls :
      (src : Text) (format : ImageFormat) (held : OwnedMutexGuard) (response : c.Response) (n : ℕ)
      → let (answers, s) = polls c n (guarded_stream c src format held response) in
        drop c s ≡ report src format (chunk_bytes c answers)
  unfolding guarded_stream
  drop-polls src format held response n =
      let start : GuardedStream c = guarded_stream c src format held response in
      let (_, counted, _) = polls-Delivers c n start (omega arith) in
      let (same_src, same_format) = stream_of-origin n start.inner 0 held src format in
      let sent : (polls c n start).1.bytes_sent ≡ chunk_bytes c (polls c n start).0 % 2 ^ 64 =
        omega (arith, counted) in
      drop-fields (polls c n start).1 src format _ same_src same_format sent

  -- The line that a fetched stream logs when it is dropped, after any number of polls, tells the
  -- number of bytes that it delivered, and that number in GiB, cut off after two decimals, as long
  -- as a hundred times the bytes is below 2 ^ 53 (some 80 TiB).
  pub drop-reports :
      (src : Text) (format : ImageFormat) (held : OwnedMutexGuard) (response : c.Response) (n : ℕ)
      → chunk_bytes c (polls c n (guarded_stream c src format held response)).0 * 100 < 2 ^ 53
      → ((drop c (polls c n (guarded_stream c src format held response)).1).bytes_sent
          ≡ chunk_bytes c (polls c n (guarded_stream c src format held response)).0)
        × ((drop c (polls c n (guarded_stream c src format held response)).1).gib * 2 ^ 30
            ≤ chunk_bytes c (polls c n (guarded_stream c src format held response)).0 * 100)
        × (chunk_bytes c (polls c n (guarded_stream c src format held response)).0 * 100
            < ((drop c (polls c n (guarded_stream c src format held response)).1).gib + 1) * 2 ^ 30)
  unfolding drop guarded_stream
  drop-reports src format held response n few =
      let start : GuardedStream c = guarded_stream c src format held response in
      let (_, counted, _) = polls-Delivers c n start (omega arith) in
      let delivered : ℕ = chunk_bytes c (polls c n start).0 in
      let exact : (polls c n start).1.bytes_sent ≡ delivered = omega (arith, counted) in
      let gib = ap bytes_to_gib exact ∙ bytes_to_gib-exact delivered few in
      (exact, omega (arith, gib), omega (arith, gib))
