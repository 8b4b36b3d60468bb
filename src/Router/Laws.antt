-- ===== src/Router/Laws.antt =====
-- What the router answers, and which requests it lets through to the import.
use xoa_proxy.Prelude.{
  ◌≡◌, refl, ◌≢◌, ◌⊎◌, inl, inr, false, none, some, Option-cases, [], ◌∷◌, ◌++◌, arith,
}
use xoa_proxy.Rust.Text.{Text, codes, contains, starts_with}
use xoa_proxy.Rust.Text.Laws.{text_eq-cases}
use xoa_proxy.Rust.Result.{err}
use xoa_proxy.Crates.{Crates}
use xoa_proxy.Error.{not_found}
use xoa_proxy.Handler.{ImageParams, handle_not_found}
use xoa_proxy.Server.{image, Server, responding, rejected, step, arrive, reject, serve, advance}
use xoa_proxy.Router.{HttpMethod, HttpRequest, Endpoint, Axum, build_router, extract, accept}

-- The methods that a route of `get` answers.
abbrev pub IsGet : HttpMethod → Type 0
IsGet m = (m ≡ HttpMethod.get) ⊎ (m ≡ HttpMethod.head)

-- A route without captures takes the requests to its path and no others; `get` accepts GET and HEAD;
-- the fallback takes all that no route does.
pub record AxumLaws (a : Axum) : Type 0 where
  pub routed :
      (path : Text) (h f : Endpoint) (r : HttpRequest)
      → contains path (codes ":") ≡ false
      → contains path (codes "*") ≡ false
      → r.path ≡ path
      → IsGet r.method
      → a.dispatch (a.fallback f (a.route path (a.get h) a.new)) r ≡ some h
  pub refused :
      (path : Text) (h f : Endpoint) (r : HttpRequest)
      → contains path (codes ":") ≡ false
      → contains path (codes "*") ≡ false
      → r.path ≡ path
      → ¬ IsGet r.method
      → a.dispatch (a.fallback f (a.route path (a.get h) a.new)) r ≡ none
  pub unrouted :
      (path : Text) (h f : Endpoint) (r : HttpRequest)
      → contains path (codes ":") ≡ false
      → contains path (codes "*") ≡ false
      → r.path ≢ path
      → a.dispatch (a.fallback f (a.route path (a.get h) a.new)) r ≡ some f

HttpMethod-cases : (m : HttpMethod) → IsGet m ⊎ (¬ IsGet m)
HttpMethod-cases HttpMethod.get = inl (inl refl)
HttpMethod-cases HttpMethod.head = inl (inr refl)
HttpMethod-cases HttpMethod.other_method = inr (λ h. ground arith)

no_colon : contains (codes "/image.xva") (codes ":") ≡ false
unfolding contains starts_with
no_colon = refl

no_star : contains (codes "/image.xva") (codes "*") ≡ false
unfolding contains starts_with
no_star = refl

module _ (a : Axum) (c : Crates) where
  -- What the server does with a request.
  pub data Accepted (s : Server c) (r : HttpRequest) (t : Server c) : Type 0 where
    imports :
        (params : ImageParams)
        → r.path ≡ codes "/image.xva"
        → IsGet r.method
        → a.query_params r.query ≡ some params
        → t ≡ arrive c s (image params)
        → Accepted s r t
    unreadable :
        r.path ≡ codes "/image.xva"
        → IsGet r.method
        → a.query_params r.query ≡ none
        → t.tasks ≡ s.tasks ++ rejected 400 ∷ []
        → t.app ≡ s.app
        → Accepted s r t
    wrong_method :
        r.path ≡ codes "/image.xva"
        → ¬ IsGet r.method
        → t.tasks ≡ s.tasks ++ rejected 405 ∷ []
        → t.app ≡ s.app
        → Accepted s r t
    unknown :
        r.path ≢ codes "/image.xva"
        → t.tasks
          ≡ s.tasks
            ++ responding (
                err (
                  not_found (codes "Unknown path '" ++ (r.path ++ codes "'. Expected /image.xva"))))
              ∷ []
        → t.app ≡ s.app
        → Accepted s r t

  module _ (axum : AxumLaws a) where
    -- Only a GET or HEAD request to "/image.xva" whose query can be read starts the import handler.
    -- Any other is answered at once, and leaves the shared state and the other requests as they are:
    -- by 400, if its query cannot be read, by 405, if its method is another, and by the 404 error
    -- that names the path, if its path is another, whatever its method.
    pub accept-Accepted : (s : Server c) (r : HttpRequest) → Accepted s r (step c s (accept a c r))
    unfolding accept extract build_router step arrive reject serve advance handle_not_found
    accept-Accepted s r = elim (text_eq-cases r.path (codes "/image.xva")) [
      | inr other ↦
          rw (axum.unrouted _ _ _ r no_colon no_star other, accept) (unknown other refl refl)
      | inl here ↦ elim (HttpMethod-cases r.method) [
        | inr wrong ↦
            rw (axum.refused _ _ _ r no_colon no_star here wrong, accept)
              (wrong_method here wrong refl refl)
        | inl gets ↦
            rw (axum.routed _ _ _ r no_colon no_star here gets, accept)
              (elim (Option-cases (a.query_params r.query)) [
                | inl missing ↦ rw (missing, extract) (unreadable here gets missing refl refl)
                | inr (params, parsed) ↦ rw (parsed, extract) (imports params here gets parsed refl)
              ])
      ]
    ]
