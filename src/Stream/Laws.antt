-- ===== src/Stream/Laws.antt =====
-- What a guarded stream delivers, and what it counts.
use mathlib.Core.Option
use xoa_proxy.Prelude.{
  ℕ, zero, suc, ◌+◌, ◌-◌, ◌*◌, ◌%◌, ◌^◌, ◌<◌, ◌≡◌, refl, ap, sym, ◌∙◌, ◌↔◌, Option, none, some,
  List, [], ◌∷◌, ◌++◌, length, arith,
}
use xoa_proxy.Rust.Text.{Text}
use xoa_proxy.Rust.Result.{ok, err}
use xoa_proxy.Crates.{Crates, Bytes, Poll, pending, ready}
use xoa_proxy.Crates.Laws.{content, ReaderLaws}
use xoa_proxy.Format.{ImageFormat, gzip, raw}
use xoa_proxy.Stream.{
  OwnedMutexGuard, GuardedStream, poll_next, map_stream_error, pipeline, guarded_stream,
}

module _ (c : Crates) where
  content-map_stream_error :
      (s : List (Poll c.Error))
      → content (map_stream_error c s) ≡ ((content s).0, Option.map c.other (content s).1)
  content-map_stream_error [] = refl
  content-map_stream_error (pending ∷ s) = content-map_stream_error s
  content-map_stream_error (ready (ok b) ∷ s) = rw (content-map_stream_error s)
  content-map_stream_error (ready (err e) ∷ s) = refl

  module _ (laws : ReaderLaws c) (src : Text) (held : OwnedMutexGuard) (response : c.Response) where
    -- A plain image is forwarded byte for byte, and breaks off with the upstream's error, if any.
    pub raw_stream_content : content (guarded_stream c src raw held response).inner ≡ (
      (content (c.bytes_stream response)).0,
      Option.map c.other (content (c.bytes_stream response)).1,
    )
    unfolding guarded_stream pipeline
    raw_stream_content =
        laws.stream_reads _
        ∙ laws.reads_stream _
        ∙ content-map_stream_error (c.bytes_stream response)

    -- What the decoder reads is what the upstream sends.
    decoder_reads :
        laws.reads (
          c.buf_reader (64 * 1024) (c.stream_reader (map_stream_error c (c.bytes_stream response))))
        ≡ (
          (content (c.bytes_stream response)).0,
          Option.map c.other (content (c.bytes_stream response)).1,
        )
    decoder_reads =
        laws.reads_buffered (64 * 1024) _ (omega arith)
        ∙ laws.reads_stream _
        ∙ content-map_stream_error (c.bytes_stream response)

    -- The stream of a gzip image ends without an error, and has delivered `plain` then, if and only
    -- if the bytes that the upstream sends begin with a complete gzip member of `plain`. So a
    -- download that breaks off within the member, or is corrupt, ends in an error; and what follows
    -- the first member is dropped without one, whether it is a second member or an error.
    pub gzip_stream_content :
        (plain : Bytes)
        → (content (guarded_stream c src gzip held response).inner ≡ (plain, none)) ↔ (
            (packed : Bytes) × (rest : Bytes) × laws.IsGzip packed plain
            × ((content (c.bytes_stream response)).0 ≡ packed ++ rest))
    unfolding guarded_stream pipeline
    gzip_stream_content plain = (
      λ ends.
          let (packed, rest, is_gzip, read) =
            laws.checks _ plain (sym (laws.stream_reads _) ∙ ends) in
          (
            packed,
            rest,
            is_gzip,
            sym (ap (λ (r : Bytes × Option c.IoError). r.0) decoder_reads) ∙ read,
          ),
      λ (packed, rest, is_gzip, sent).
          laws.stream_reads _
          ∙ laws.decodes _ packed rest plain
              (Option.map c.other (content (c.bytes_stream response)).1) is_gzip
              (decoder_reads
                ∙ ap (λ b. (b, Option.map c.other (content (c.bytes_stream response)).1)) sent),
    )

  -- `n` polls of a stream: what they answered up to its end, and the stream after them.
  abbrev pub polls : ℕ → GuardedStream c → List (Poll c.IoError) × GuardedStream c
  polls zero s = ([], s)
  polls (suc n) s =
      let (answer, next) = poll_next c s in
      elim answer [ none ↦ ([], next) | some p ↦ (p ∷ (polls n next).0, (polls n next).1) ]

  -- The bytes in the chunks of a list of polls.
  abbrev pub chunk_bytes : List (Poll c.IoError) → ℕ
  chunk_bytes [] = 0
  chunk_bytes (pending ∷ s) = chunk_bytes s
  chunk_bytes (ready (ok b) ∷ s) = length b + chunk_bytes s
  chunk_bytes (ready (err e) ∷ s) = chunk_bytes s

  -- What `n` polls of a stream come to.
  abbrev pub Delivers : ℕ → GuardedStream c → Type 0
  Delivers n s =
      ((polls n s).0 ++ (polls n s).1.inner ≡ s.inner)
      × ((polls n s).1.bytes_sent ≡ (s.bytes_sent + chunk_bytes (polls n s).0) % 2 ^ 64)
      × (length (polls n s).1.inner ≡ length s.inner - n)

  abbrev pub stream_of :
      List (Poll c.IoError) → ℕ → OwnedMutexGuard → Text → ImageFormat → GuardedStream c
  stream_of inner sent held src format = record {
    inner = inner;
    held = held;
    bytes_sent = sent;
    src_url = src;
    format = format;
  }

  stream_of-Delivers :
      (n : ℕ) (inner : List (Poll c.IoError)) (sent : ℕ) (held : OwnedMutexGuard) (src : Text)
      (format : ImageFormat)
      → sent < 2 ^ 64
      → Delivers n (stream_of inner sent held src format)
  unfolding poll_next
  stream_of-Delivers zero inner sent held src format h = (refl, omega arith, omega arith)
  stream_of-Delivers (suc n) [] sent held src format h = (refl, omega arith, omega arith)
  stream_of-Delivers (suc n) (pending ∷ rest) sent held src format h =
      let (split, count, left) = stream_of-Delivers n rest sent held src format h in
      (ap (◌∷◌ pending) split, count, omega (arith, left))
  stream_of-Delivers (suc n) (ready (err e) ∷ rest) sent held src format h =
      let (split, count, left) = stream_of-Delivers n rest sent held src format h in
      (ap (◌∷◌ (ready (err e))) split, count, omega (arith, left))
  stream_of-Delivers (suc n) (ready (ok b) ∷ rest) sent held src format h =
      let (split, count, left) =
        stream_of-Delivers n rest ((sent + length b) % 2 ^ 64) held src format (omega arith) in
      (ap (◌∷◌ (ready (ok b))) split, omega (arith, count), omega (arith, left))

  -- However often a stream has been polled, it has delivered a prefix of the polls of its pipeline,
  -- unchanged and in order, its counter has grown by the bytes of the chunks that it delivered,
  -- modulo 2 ^ 64, and as many polls fewer are left, down to none.
  pub polls-Delivers : (n : ℕ) (s : GuardedStream c) → s.bytes_sent < 2 ^ 64 → Delivers n s
  polls-Delivers n s h = stream_of-Delivers n s.inner s.bytes_sent s.held s.src_url s.format h
