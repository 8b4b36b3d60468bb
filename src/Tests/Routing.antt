-- ===== src/Tests/Routing.antt =====
-- A small router, and the theorems on requests and bodies at inputs.
use xoa_proxy.Prelude.{
  ℕ, suc, ◌≡◌, refl, ◌≢◌, inl, inr, Bool, true, false, Option, none, some, List, [], ◌∷◌, arith,
  Bool-cases, if◌then◌else◌,
}
use xoa_proxy.Rust.Text.{Text, codes, text_eq}
use xoa_proxy.Rust.Text.Laws.{text_eq-eq, text_eq_refl}
use xoa_proxy.Lifecycle.Body.{HttpBody, active_request, active_body, seen, active_body-transparent}
use xoa_proxy.Stream.{client_settings}
use xoa_proxy.Server.{start, step}
use xoa_proxy.Router.{HttpMethod, HttpRequest, Endpoint, Axum, accept}
use xoa_proxy.Router.Laws.{IsGet, AxumLaws, Accepted, accept-Accepted}
use xoa_proxy.Tests.Example.{example_crates}
use xoa_proxy.Tests.Handling.{get_image}

-- One route and one fallback.
abbrev pub Table : Type 0
Table = Option (Text × Endpoint) × Option Endpoint

abbrev pub by_method : HttpMethod → Endpoint → Option Endpoint
by_method HttpMethod.get h = some h
by_method HttpMethod.head h = some h
by_method HttpMethod.other_method h = none

abbrev pub dispatch_table : Table → HttpRequest → Option Endpoint
dispatch_table (none, f) r = f
dispatch_table (some (path, h), f) r = if text_eq r.path path then by_method r.method h else f

abbrev pub example_axum : Axum
example_axum = record {
  MethodRouter = Endpoint;
  get = λ h. h;
  Router = Table;
  new = (none, none);
  route = λ path h table. (some (path, h), table.1);
  fallback = λ f table. (table.0, some f);
  dispatch = dispatch_table;
  query_params = λ query.
      if text_eq query (codes "src=http://h/a.xva")
      then some (get_image (codes "http://h/a.xva"))
      else none;
}

pub by_method_get : (m : HttpMethod) (h : Endpoint) → IsGet m → by_method m h ≡ some h
by_method_get HttpMethod.get h g = refl
by_method_get HttpMethod.head h g = refl
by_method_get HttpMethod.other_method h g = ground arith

pub by_method_other : (m : HttpMethod) (h : Endpoint) → ¬ IsGet m → by_method m h ≡ none
by_method_other HttpMethod.get h g = absurd (g (inl refl))
by_method_other HttpMethod.head h g = absurd (g (inr refl))
by_method_other HttpMethod.other_method h g = refl

pub same_path : (s t : Text) → s ≡ t → text_eq s t ≡ true
same_path s t e = rw e (text_eq_refl t)

pub other_path : (s t : Text) → s ≢ t → text_eq s t ≡ false
other_path s t ne = elim (Bool-cases (text_eq s t)) [
  | inl same ↦ absurd (ne (text_eq-eq s t same))
  | inr other ↦ other
]

abbrev example_routes : AxumLaws example_axum
example_routes = record {
  routed =
      λ path h f r _ _ here gets. rw (same_path r.path path here) (by_method_get r.method h gets);
  refused = λ path h f r _ _ here wrong.
      rw (same_path r.path path here) (by_method_other r.method h wrong);
  unrouted = λ path h f r _ _ other. rw (other_path r.path path other) refl;
}

abbrev delete_image : HttpRequest
delete_image = record { method = HttpMethod.other_method; path = codes "/image.xva"; query = [] }

accept-Accepted_example :
    Accepted example_axum example_crates
      (start example_crates (client_settings true) (client_settings false))
      delete_image
      (step example_crates
        (start example_crates (client_settings true) (client_settings false))
        (accept example_axum example_crates delete_image))
accept-Accepted_example =
    accept-Accepted example_axum example_crates example_routes
      (start example_crates (client_settings true) (client_settings false)) delete_image

-- A body is the list of its frames, and its size hint their number.
abbrev pub frames_left : List ℕ → ℕ
frames_left [] = 0
frames_left (x ∷ xs) = suc (frames_left xs)

abbrev pub next_frame : List ℕ → Option ℕ × List ℕ
next_frame [] = (none, [])
next_frame (x ∷ xs) = (some x, xs)

abbrev pub no_frames : List ℕ → Bool
no_frames [] = true
no_frames (x ∷ xs) = false

abbrev frames : HttpBody
frames = record {
  Body = List ℕ;
  Answer = Option ℕ;
  SizeHint = ℕ;
  poll_frame = next_frame;
  is_end_stream = no_frames;
  size_hint = frames_left;
}

active_body-transparent_example :
    seen (active_body frames) 3 (record { inner = 4 ∷ 5 ∷ []; guard = active_request })
    ≡ seen frames 3 (4 ∷ 5 ∷ [])
active_body-transparent_example = active_body-transparent frames 3 (4 ∷ 5 ∷ []) active_request
