-- ===== src/Format/Laws.antt =====
-- Printing and parsing of an image format.
use xoa_proxy.Prelude.{◌≡◌, refl, ◌↔◌, arith}
use xoa_proxy.Rust.Text.{Text, codes}
use xoa_proxy.Rust.Text.Laws.{text_eq_iff}
use xoa_proxy.Rust.Result.{ok}
use xoa_proxy.Format.{ImageFormat, gzip, raw, to_string, from_str}

-- A printed format parses back to itself.
from_str-to_string : (f : ImageFormat) → from_str (to_string f) ≡ ok f
unfolding from_str to_string
from_str-to_string gzip = refl
from_str-to_string raw = refl

-- Parsing accepts exactly the printed names: a text parses to a format if and only if it is what the
-- format prints as.
from_str_iff : (s : Text) (f : ImageFormat) → (from_str s ≡ ok f) ↔ (s ≡ to_string f)
unfolding from_str to_string
from_str_iff s gzip = ground (arith, text_eq_iff s (codes "gzip"), text_eq_iff s (codes "raw"))
from_str_iff s raw = ground (arith, text_eq_iff s (codes "gzip"), text_eq_iff s (codes "raw"))
