-- ===== src/Crates.antt =====
-- What the proxy calls of other crates, as a parameter of the model. A value of a foreign type is
-- known only by what these operations answer.
pub mod Laws
use xoa_proxy.Prelude.{ℕ, Bool, Option, List}
use xoa_proxy.Rust.Text.{Text}
use xoa_proxy.Rust.Result.{Result}

abbrev pub Bytes : Type 0
Bytes = List ℕ

-- One poll of a `Stream<Item = Result<Bytes, E>>`. A stream is the list of the polls that it answers
-- before its end.
pub data Poll (E : Type 0) : Type 0 where
  pending : Poll E
  ready : Result E Bytes → Poll E

pub data HeaderName : Type 0 where
  content_type content_encoding : HeaderName

-- The head that `Response::builder` is given.
pub record ResponseHead : Type 0 where
  pub version : Text
  pub status : ℕ
  pub headers : List (Text × Text)

-- The settings that `Client::builder` is given.
pub record ClientSettings : Type 0 where
  pub user_agent : Text
  pub gzip : Bool
  pub deflate : Bool
  pub brotli : Bool
  pub accept_invalid_certs : Bool

pub record Crates : Type 1 where
  -- reqwest and http
  pub Client : Type 0
  pub Response : Type 0
  pub Error : Type 0
  pub HeaderValue : Type 0
  pub build : ClientSettings → Result Error Client
  -- `Url::parse(s).ok()` followed by `path()`
  pub url_path : Text → Option Text
  pub header : HeaderName → Response → Option HeaderValue
  pub to_str : HeaderValue → Option Text
  pub error_for_status : Response → Result Error Response
  pub status : Response → ℕ
  pub content_length : Response → Option ℕ
  pub bytes_stream : Response → List (Poll Error)
  pub error_text : Error → Text
  -- anyhow: how `{}` prints an error that was given a context
  pub context_text : Text → Error → Text
  -- tokio, tokio-util and async-compression: streams and readers
  pub IoError : Type 0
  pub other : Error → IoError
  pub io_text : IoError → Text
  pub Reader : Type 0
  pub stream_reader : List (Poll IoError) → Reader
  pub buf_reader : ℕ → Reader → Reader
  pub gzip_decoder : Reader → Reader
  pub reader_stream : Reader → List (Poll IoError)
  -- axum: the error of `Response::builder`, if the head is refused
  pub builder_error : ResponseHead → Option Text
  -- axum: whether the serving ends once the future given to `with_graceful_shutdown` has panicked
  pub stops_on_panic : Bool
  -- tokio::sync::Mutex<()>
  pub Mutex : Type 0
  pub new_mutex : Mutex
  pub try_lock_owned : Mutex → Option Mutex
  pub drop_guard : Mutex → Mutex
  -- tokio::sync::watch of a number
  pub Sender : Type 0
  pub Receiver : Type 0
  pub channel : ℕ → Sender
  pub send_modify : (ℕ → ℕ) → Sender → Sender
  pub borrow : Sender → ℕ
  pub subscribe : Sender → Receiver
  pub mark_seen : Sender → Receiver → Receiver
  pub has_changed : Sender → Receiver → Bool
