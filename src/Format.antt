-- ===== src/Format.antt =====
-- src/stream.rs: `ImageFormat`, its `Display` and its `FromStr`.
pub mod Laws
use xoa_proxy.Prelude.{◌++◌, if◌then◌else◌}
use xoa_proxy.Rust.Text.{Text, codes, text_eq}
use xoa_proxy.Rust.Result.{Result, ok, err}

pub data ImageFormat : Type 0 where
  gzip raw : ImageFormat

-- `Display::fmt`
unfoldable pub to_string : ImageFormat → Text
to_string gzip = codes "gzip"
to_string raw = codes "raw"

-- `FromStr::from_str`
unfoldable pub from_str : Text → Result Text ImageFormat
unfolding text_eq
from_str s =
    if text_eq s (codes "gzip")
    then ok gzip
    else if text_eq s (codes "raw")
    then ok raw
    else err (codes "Unknown image format '" ++ (s ++ codes "': expected 'gzip' or 'raw'"))
