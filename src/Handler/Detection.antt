-- ===== src/Handler/Detection.antt =====
-- What format detection decides, from the path of the URL and from the headers of a HEAD response.
use xoa_proxy.Prelude.{
  ℕ, ◌≡◌, refl, sym, ap, ◌∙◌, ◌↔◌, ◌⊎◌, inl, inr, ◌≢◌, Option-cases, true, Option, none, some,
  unwrap_or, [], ◌∷◌, ◌++◌, arith,
}
use xoa_proxy.Rust.Text.{Text, codes, ends_with, contains, starts_with, to_lowercase}
use xoa_proxy.Rust.Text.Case.{AllLower, HasIgnoringCase, contains_lowered}
use xoa_proxy.Rust.Text.Laws.{ends_with-append, ends_with-split}
use xoa_proxy.Crates.{Crates, HeaderName, content_type, content_encoding}
use xoa_proxy.Format.{gzip, raw}
use xoa_proxy.Handler.{format_of_path, header_text, format_of_headers}

-- `s` ends in `suffix`, in upper or lower case.
abbrev pub HasExtension : Text → Text → Type 0
HasExtension path suffix = (stem : Text) × (to_lowercase path ≡ stem ++ suffix)

HasExtension-iff :
    (path suffix : Text) → (ends_with (to_lowercase path) suffix ≡ true) ↔ HasExtension path suffix
HasExtension-iff path suffix =
    (ends_with-split (to_lowercase path) suffix, λ (stem, e). rw e (ends_with-append stem suffix))

last : Text → Option ℕ
last [] = none
last (c ∷ []) = some c
last (c ∷ d ∷ s) = last (d ∷ s)

last-append : (s : Text) (c : ℕ) (t : Text) → last (s ++ c ∷ t) ≡ last (c ∷ t)
unfolding last
last-append [] c t = refl
last-append (b ∷ []) c t = refl
last-append (b ∷ d ∷ s) c t = last-append (d ∷ s) c t

-- A plain image's extension is not that of a compressed one.
extensions_differ :
    (path : Text)
    → HasExtension path (codes ".xva")
    → ¬ (HasExtension path (codes ".xva.gz") ⊎ HasExtension path (codes ".xva.gzip"))
unfolding last
extensions_differ path (s, e) h = elim h [
  | inl (t, f) ↦
      ends (sym (last-append s b'.' (codes "xva")))
        (ap last (sym e ∙ f) ∙ last-append t b'.' (codes "xva.gz")) (omega arith)
  | inr (t, f) ↦
      ends (sym (last-append s b'.' (codes "xva")))
        (ap last (sym e ∙ f) ∙ last-append t b'.' (codes "xva.gzip")) (omega arith)
]
  where
    ends : {m n : ℕ} {o : Option ℕ} → some m ≡ o → o ≡ some n → m ≢ n → ⊥
    ends p q ne = ne (ap (unwrap_or 0) (p ∙ q))

-- A path is taken for a compressed image if and only if it ends in ".xva.gz" or ".xva.gzip", and for
-- a plain one if and only if it ends in ".xva", in both cases whatever the case of the letters.
pub format_of_path_iff :
    (path : Text)
    → ((format_of_path path ≡ some gzip)
        ↔ (HasExtension path (codes ".xva.gz") ⊎ HasExtension path (codes ".xva.gzip")))
      × ((format_of_path path ≡ some raw) ↔ HasExtension path (codes ".xva"))
unfolding format_of_path
format_of_path_iff path = grind (
  arith,
  HasExtension-iff path (codes ".xva.gz"),
  HasExtension-iff path (codes ".xva.gzip"),
  HasExtension-iff path (codes ".xva"),
  extensions_differ path,
)

-- The response has a header of this name that is visible ASCII and has the word anywhere in it,
-- with each letter in lower or in upper case.
abbrev pub Mentions : (c : Crates) → HeaderName → c.Response → Text → Type 0
Mentions c name response word =
    (value : c.HeaderValue) × (text : Text) × (c.header name response ≡ some value)
    × (c.to_str value ≡ some text)
    × HasIgnoringCase text word

module _ (c : Crates) where
  -- `header_text` of a header that is there, and of one that is missing or not visible ASCII.
  header_text-some :
      (name : HeaderName) (response : c.Response) (value : c.HeaderValue) (text : Text)
      → c.header name response ≡ some value
      → c.to_str value ≡ some text
      → header_text c name response ≡ to_lowercase text
  unfolding header_text
  header_text-some name response value text there visible = rw there (rw visible refl)

  header_text-cases :
      (name : HeaderName) (response : c.Response)
      → ((value : c.HeaderValue) × (text : Text) × (c.header name response ≡ some value)
          × (c.to_str value ≡ some text))
        ⊎ (header_text c name response ≡ [])
  unfolding header_text to_lowercase
  header_text-cases name response = elim (Option-cases (c.header name response)) [
    | inl missing ↦ inr (rw missing refl)
    | inr (value, there) ↦ elim (Option-cases (c.to_str value)) [
      | inl opaque ↦ inr (rw there (rw opaque refl))
      | inr (text, visible) ↦ inl (value, text, there, visible)
    ]
  ]

  empty_has_no : (d : ℕ) (word : Text) → ¬ (contains [] (d ∷ word) ≡ true)
  unfolding contains starts_with
  empty_has_no d word h = cc

  header_text-Mentions :
      (name : HeaderName) (response : c.Response) (d : ℕ) (word : Text)
      → AllLower (d ∷ word)
      → (contains (header_text c name response) (d ∷ word) ≡ true)
        ↔ Mentions c name response (d ∷ word)
  header_text-Mentions name response d word letters = (
    λ found. elim (header_text-cases name response) [
      | inl (value, text, there, visible) ↦ (
        value,
        text,
        there,
        visible,
        (contains_lowered text (d ∷ word) letters).0
            (rw (header_text-some name response value text there visible) at found),
      )
      | inr empty ↦ absurd (empty_has_no d word (rw empty at found))
    ],
    λ (value, text, there, visible, has).
        rw (header_text-some name response value text there visible)
          ((contains_lowered text (d ∷ word) letters).1 has),
  )

  -- A HEAD response is taken for a compressed image if and only if it has a `Content-Type` or a
  -- `Content-Encoding` header that is visible ASCII and has "gzip" anywhere in it, with each letter
  -- in lower or in upper case.
  pub format_of_headers_iff :
      (response : c.Response)
      → (format_of_headers c response ≡ gzip) ↔ (
          Mentions c content_type response (codes "gzip")
          ⊎ Mentions c content_encoding response (codes "gzip"))
  unfolding format_of_headers
  format_of_headers_iff response =
      let letters : AllLower (codes "gzip") = ground arith in
      grind (
        arith,
        header_text-Mentions content_type response b'g' (codes "zip") letters,
        header_text-Mentions content_encoding response b'g' (codes "zip") letters,
      )
