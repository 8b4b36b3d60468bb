-- ===== src/Tests/Example.antt =====
-- A small world for the proxy: an upstream response is a status, two headers and a body; a gzip
-- member is a magic byte, its length and its data; a watch channel counts its changes.
use mathlib.Core.List.{append-nil}
use xoa_proxy.Prelude.{
  ℕ, zero, suc, ◌+◌, ◌≤◌, ◌≡◌, refl, Bool, true, false, Option, none, some, List, [], ◌∷◌, length,
  arith, ltb, leb, ◌==◌, ◌||◌, if◌then◌else◌,
}
use xoa_proxy.Rust.Text.{Text, codes}
use xoa_proxy.Rust.Result.{Result, ok, err}
use xoa_proxy.Crates.{Crates, Bytes, Poll, ready, HeaderName, ClientSettings}
use xoa_proxy.Tests.Decoder.{unpack, unpack-member, member-unpack}
use xoa_proxy.Crates.Laws.{MutexLaws, WatchLaws, ReaderLaws, content}

pub record Reply : Type 0 where
  pub status : ℕ
  pub content_type : Option Text
  pub content_encoding : Option Text
  pub body : List (Poll ℕ)

abbrev pub header_of : HeaderName → Reply → Option Text
header_of HeaderName.content_type r = r.content_type
header_of HeaderName.content_encoding r = r.content_encoding

abbrev pub path_end : Text → Text
path_end [] = []
path_end (c ∷ s) = if c == b'?' || c == b'#' then [] else c ∷ path_end s

-- The path between the third slash and the query or the fragment.
abbrev pub path_from : ℕ → Text → Option Text
path_from n [] = none
path_from zero (c ∷ s) = some (path_end (c ∷ s))
path_from (suc n) (c ∷ s) = path_from (if c == b'/' then n else suc n) s

abbrev pub checked_status : Reply → Result ℕ Reply
checked_status r = if leb 400 r.status then err r.status else ok r

abbrev pub to_stream : Bytes × Option ℕ → List (Poll ℕ)
to_stream (b, none) = ready (ok b) ∷ []
to_stream (b, some e) = ready (ok b) ∷ ready (err e) ∷ []

abbrev pub example_crates : Crates
example_crates = record {
  Client = ClientSettings;
  Response = Reply;
  Error = ℕ;
  HeaderValue = Text;
  build = λ settings. ok settings;
  url_path = path_from 3;
  header = header_of;
  to_str = λ v. some v;
  error_for_status = checked_status;
  status = λ r. r.status;
  content_length = λ r. none;
  bytes_stream = λ r. r.body;
  error_text = λ e. codes "refused";
  context_text = λ t e. t;
  IoError = ℕ;
  other = λ e. e;
  io_text = λ e. codes "broken pipe";
  Reader = Bytes × Option ℕ;
  stream_reader = content;
  buf_reader = λ n r. r;
  gzip_decoder = unpack;
  reader_stream = to_stream;
  builder_error = λ head. none;
  stops_on_panic = true;
  Mutex = Bool;
  new_mutex = false;
  try_lock_owned = λ m. if m then none else some true;
  drop_guard = λ m. false;
  Sender = ℕ × ℕ;
  Receiver = ℕ;
  channel = λ n. (n, 0);
  send_modify = λ f s. (f s.0, s.1 + 1);
  borrow = λ s. s.0;
  subscribe = λ s. s.1;
  mark_seen = λ s r. s.1;
  has_changed = λ s r. ltb r s.1;
}

pub try_held_example :
    (m : Bool) → m ≡ true → ◌≡◌ {A = Option Bool} (if m then none else some true) none
try_held_example m h = rw h

pub try_free_example :
    (m : Bool)
    → m ≡ false
    → (held : Bool) × ((if m then none else some true) ≡ some held) × (held ≡ true)
try_free_example m h = (true, rw h, refl)

abbrev pub example_mutex : MutexLaws example_crates
example_mutex = record {
  locked = λ m. m;
  new_free = refl;
  try_held = try_held_example;
  try_free = try_free_example;
  drop_frees = λ m. refl;
}

pub ltb_same : (n : ℕ) → ltb n n ≡ false
ltb_same n = ground arith

pub ltb_next : (r n : ℕ) → r ≤ n → ltb r (n + 1) ≡ true
ltb_next r n h = ground arith

pub same-le : (n : ℕ) → n ≤ n
same-le n = omega arith

pub le-next : (r n : ℕ) → r ≤ n → r ≤ n + 1
le-next r n h = omega arith

abbrev pub example_watch : WatchLaws example_crates
example_watch = record {
  Connected = λ s r. r ≤ s.1;
  borrow_channel = λ n. refl;
  borrow_modify = λ f s. refl;
  connected_subscribed = λ s. same-le s.1;
  connected_marked = λ s r. same-le s.1;
  connected_modified = λ f s r h. le-next r s.1 h;
  seen_marked = λ s r. ltb_same s.1;
  modify_notifies = λ f s r h. ltb_next r s.1 h;
}

pub content-to_stream : (r : Bytes × Option ℕ) → content (to_stream r) ≡ r
content-to_stream (b, none) = rw (append-nil b)
content-to_stream (b, some e) = rw (append-nil b)

abbrev pub example_readers : ReaderLaws example_crates
example_readers = record {
  reads = λ r. r;
  reads_stream = λ s. refl;
  reads_buffered = λ n r h. refl;
  stream_reads = content-to_stream;
  IsGzip = λ packed plain. packed ≡ 0x1f ∷ length plain ∷ plain;
  decodes = unpack-member;
  checks = member-unpack;
}
