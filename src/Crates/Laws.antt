-- ===== src/Crates/Laws.antt =====
-- The documented behaviour of the other crates that theorems rely on, as hypotheses for them.
use xoa_proxy.Prelude.{ℕ, ◌<◌, ◌≡◌, Bool, true, false, Option, none, some, List, [], ◌∷◌, ◌++◌}
use xoa_proxy.Rust.Result.{ok, err}
use xoa_proxy.Crates.{Crates, Bytes, Poll, pending, ready}

-- A mutex is locked from a successful `try_lock_owned` until the guard is dropped.
pub record MutexLaws (c : Crates) : Type 0 where
  pub locked : c.Mutex → Bool
  pub new_free : locked c.new_mutex ≡ false
  pub try_held : (m : c.Mutex) → locked m ≡ true → c.try_lock_owned m ≡ none
  pub try_free :
      (m : c.Mutex)
      → locked m ≡ false
      → (held : c.Mutex) × (c.try_lock_owned m ≡ some held) × (locked held ≡ true)
  pub drop_frees : (m : c.Mutex) → locked (c.drop_guard m) ≡ false

-- `send_modify` changes the value and notifies every receiver of the channel, whatever the new value
-- is; a receiver has seen the value that it last marked. `Connected s r`: `r` listens to `s`.
pub record WatchLaws (c : Crates) : Type 1 where
  pub Connected : c.Sender → c.Receiver → Type 0
  pub borrow_channel : (n : ℕ) → c.borrow (c.channel n) ≡ n
  pub borrow_modify : (f : ℕ → ℕ) (s : c.Sender) → c.borrow (c.send_modify f s) ≡ f (c.borrow s)
  pub connected_subscribed : (s : c.Sender) → Connected s (c.subscribe s)
  pub connected_marked : (s : c.Sender) (r : c.Receiver) → Connected s (c.mark_seen s r)
  pub connected_modified :
      (f : ℕ → ℕ) (s : c.Sender) (r : c.Receiver) → Connected s r → Connected (c.send_modify f s) r
  pub seen_marked : (s : c.Sender) (r : c.Receiver) → c.has_changed s (c.mark_seen s r) ≡ false
  pub modify_notifies :
      (f : ℕ → ℕ) (s : c.Sender) (r : c.Receiver)
      → Connected s r
      → c.has_changed (c.send_modify f s) r ≡ true

-- The bytes that a stream yields before its first error, and that error.
abbrev pub content : {E : Type 0} → List (Poll E) → Bytes × Option E
content [] = ([], none)
content (pending ∷ s) = content s
content (ready (ok b) ∷ s) = (b ++ (content s).0, (content s).1)
content (ready (err e) ∷ s) = ([], some e)

-- The adapters pass a stream's bytes on. `reads r` is what reading `r` to its end gives.
pub record ReaderLaws (c : Crates) : Type 1 where
  pub reads : c.Reader → Bytes × Option c.IoError
  pub reads_stream : (s : List (Poll c.IoError)) → reads (c.stream_reader s) ≡ content s
  pub reads_buffered : (n : ℕ) (r : c.Reader) → 0 < n → reads (c.buf_reader n r) ≡ reads r
  pub stream_reads : (r : c.Reader) → content (c.reader_stream r) ≡ reads r
  -- `IsGzip packed plain`: `packed` is a complete gzip member of `plain`.
  pub IsGzip : Bytes → Bytes → Type 0
  -- The decoder reads one member (`multiple_members` is off by default), and nothing after it.
  pub decodes :
      (r : c.Reader) (packed rest plain : Bytes) (e : Option c.IoError)
      → IsGzip packed plain
      → reads r ≡ (packed ++ rest, e)
      → reads (c.gzip_decoder r) ≡ (plain, none)
  -- It fails where a member is cut off, or does not have the length and the checksum of its trailer.
  pub checks :
      (r : c.Reader) (plain : Bytes)
      → reads (c.gzip_decoder r) ≡ (plain, none)
      → (packed : Bytes) × (rest : Bytes) × IsGzip packed plain × ((reads r).0 ≡ packed ++ rest)
