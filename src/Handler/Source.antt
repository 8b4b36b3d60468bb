-- ===== src/Handler/Source.antt =====
-- The validation of the `src` parameter and the choice of the client.
use xoa_proxy.Prelude.{
  ℕ, ◌≤◌, ◌≡◌, refl, sym, ap, ◌∙◌, ◌↔◌, ◌⊎◌, inl, inr, true, Option, none, some, ◌++◌, arith,
  Bool-cases, take, unwrap_or, length, length-append, length-take-le,
}
use xoa_proxy.Rust.Text.{Text, codes, starts_with}
use xoa_proxy.Rust.Text.Laws.{starts_with-append, starts_with-split}
use xoa_proxy.Rust.Result.{Result, ok, err}
use xoa_proxy.Error.{ProxyError, bad_request}
use xoa_proxy.Crates.{Crates}
use xoa_proxy.Log.{import_received}
use xoa_proxy.Async.{log}
use xoa_proxy.State.{AppState}
use xoa_proxy.Handler.{ImageParams, validate_src, select_client, transfer, handle_image_xva}

abbrev pub HasPrefix : Text → Text → Type 0
HasPrefix p s = (rest : Text) × (s ≡ p ++ rest)

-- The URL begins with one of the two schemes, in lower case.
abbrev pub HasScheme : Text → Type 0
HasScheme s = HasPrefix (codes "http://") s ⊎ HasPrefix (codes "https://") s

abbrev pub missing_src : ProxyError
missing_src = bad_request (codes "Missing required query parameter: src")

abbrev pub wrong_scheme : Text → ProxyError
wrong_scheme s = bad_request (codes "src must start with http:// or https://, got: " ++ take 40 s)

HasPrefix-iff : (p s : Text) → (starts_with s p ≡ true) ↔ HasPrefix p s
HasPrefix-iff p s = (starts_with-split s p, λ (t, e). rw e (starts_with-append p t))

-- The three outcomes of the validation, with what tells them apart.
pub data SrcCheck (src : Option Text) (out : Result ProxyError Text) : Type 0 where
  missing : src ≡ none → out ≡ err missing_src → SrcCheck src out
  wrong : (s : Text) → src ≡ some s → ¬ HasScheme s → out ≡ err (wrong_scheme s) → SrcCheck src out
  valid : (s : Text) → src ≡ some s → HasScheme s → out ≡ ok s → SrcCheck src out

-- `src` is accepted, unchanged, if and only if it is present and begins with "http://" or
-- "https://"; each refusal is the 400 error with the message of its case.
pub validate_src-SrcCheck : (src : Option Text) → SrcCheck src (validate_src src)
unfolding validate_src
validate_src-SrcCheck none = missing refl refl
validate_src-SrcCheck (some s) = elim (Bool-cases (starts_with s (codes "http://"))) [
  | inl plain ↦ valid s refl (inl ((HasPrefix-iff _ s).0 plain)) (ground arith)
  | inr other ↦ elim (Bool-cases (starts_with s (codes "https://"))) [
    | inl tls ↦ valid s refl (inr ((HasPrefix-iff _ s).0 tls)) (ground arith)
    | inr bad ↦
        wrong s refl
          (λ h.
            grind (arith, HasPrefix-iff (codes "http://") s, HasPrefix-iff (codes "https://") s))
          (ground arith)
  ]
]

-- The message of a 400 error.
message_length : Result ProxyError Text → ℕ
message_length (err (bad_request msg)) = length msg
message_length _ = 0

-- The error that a bad `src` is answered with echoes 40 characters of it at most, however long it is:
-- its message is at most 86 characters long.
validate_src_bounded :
    (src : Option Text) (msg : Text) → validate_src src ≡ err (bad_request msg) → length msg ≤ 86
unfolding message_length
validate_src_bounded src msg e = elim (validate_src-SrcCheck src) [
  | missing _ out ↦ omega (arith, ap message_length (sym e ∙ out))
  | wrong s _ _ out ↦ omega (
    arith,
    ap message_length (sym e ∙ out),
    length-append (codes "src must start with http:// or https://, got: ") (take 40 s),
    length-take-le 40 s,
  )
  | valid s _ _ out ↦ absurd (cc (sym e ∙ out))
]

-- A valid `src` leads to the transfer.
pub handle_image_xva-transfer :
    (c : Crates) (state : AppState c) (params : ImageParams) (src : Text)
    → params.src ≡ some src
    → HasScheme src
    → handle_image_xva c state params
      ≡ log
          (import_received src (unwrap_or true params.verify_ssl))
          (transfer c (select_client c state params.verify_ssl) src)
unfolding handle_image_xva
handle_image_xva-transfer c state params src named scheme =
    elim (validate_src-SrcCheck params.src) [
      | missing absent _ ↦ absurd (cc (sym absent ∙ named))
      | wrong other named' bad _ ↦ absurd (bad (rw (same_src other named') scheme))
      | valid other named' _ accepted ↦ rw (accepted, same_src other named') refl
    ]
  where
    same_src : (other : Text) → params.src ≡ some other → other ≡ src
    same_src other named' = ap (unwrap_or src) (sym named' ∙ named)
