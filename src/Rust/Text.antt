-- ===== src/Rust/Text.antt =====
-- `str` as the list of its characters' code points, with the operations on it that the proxy calls.
pub mod Laws
pub mod Case
use Prim.Native.Char.{code}
use Prim.Native.String.{String}
use xoa_proxy.Prelude.{
  ℕ, ◌+◌, Bool, true, false, ◌&&◌, ◌||◌, List, [], ◌∷◌, map, leb, ◌==◌, if◌then◌else◌,
}

abbrev pub Text : Type 0
Text = List ℕ

-- A literal of the source.
abbrev pub codes : String → Text
codes String.[] = []
codes (String.◌∷◌ c s) = code c ∷ codes s

-- `str`'s `==`
unfoldable pub text_eq : Text → Text → Bool
text_eq [] [] = true
text_eq (c ∷ s) (d ∷ t) = c == d && text_eq s t
text_eq _ _ = false

-- `str::starts_with` of a literal pattern
unfoldable pub starts_with : Text → Text → Bool
starts_with s [] = true
starts_with [] (p ∷ ps) = false
starts_with (c ∷ s) (p ∷ ps) = c == p && starts_with s ps

-- `str::ends_with` of a literal pattern
unfoldable pub ends_with : Text → Text → Bool
unfolding text_eq
ends_with [] p = text_eq [] p
ends_with (c ∷ s) p = text_eq (c ∷ s) p || ends_with s p

-- `str::contains` of a literal pattern
unfoldable pub contains : Text → Text → Bool
unfolding starts_with
contains [] p = starts_with [] p
contains (c ∷ s) p = starts_with (c ∷ s) p || contains s p

is_upper : ℕ → Bool
is_upper c = leb b'A' c && leb c b'Z'

unfoldable pub lower : ℕ → ℕ
unfolding is_upper
lower c = if is_upper c then c + 32 else c

-- `str::to_lowercase` on ASCII texts. The proxy lowers nothing else: the path of a parsed URL is
-- percent-encoded, and `HeaderValue::to_str` answers visible ASCII only.
unfoldable pub to_lowercase : Text → Text
unfolding lower
to_lowercase s = map lower s
