-- ===== src/Router.antt =====
-- src/lib.rs: `build_router`, and where it sends a request. axum's router is a parameter.
pub mod Laws
use xoa_proxy.Prelude.{ℕ, Bool, Option, none, some}
use xoa_proxy.Rust.Text.{Text, codes}
use xoa_proxy.Crates.{Crates}
use xoa_proxy.Handler.{ImageParams}
use xoa_proxy.Server.{image, unknown_path, Action, arrives, rejects}

pub data HttpMethod : Type 0 where
  get head other_method : HttpMethod

pub record HttpRequest : Type 0 where
  pub method : HttpMethod
  pub path : Text
  pub query : Text

-- The two handlers, by name.
pub data Endpoint : Type 0 where
  handle_image_xva handle_not_found : Endpoint

-- axum: `Router`, `get`, and the extractor `Query<ImageParams>`. A request is dispatched to an
-- endpoint, or refused because of its method.
pub record Axum : Type 1 where
  pub MethodRouter : Type 0
  pub get : Endpoint → MethodRouter
  pub Router : Type 0
  pub new : Router
  pub route : Text → MethodRouter → Router → Router
  pub fallback : Endpoint → Router → Router
  pub dispatch : Router → HttpRequest → Option Endpoint
  pub query_params : Text → Option ImageParams

-- `with_state` gives the handlers the state that `serve` passes to them.
unfoldable pub build_router : (a : Axum) → a.Router
build_router a =
    a.fallback handle_not_found (a.route (codes "/image.xva") (a.get handle_image_xva) a.new)

abbrev pub method_not_allowed : ℕ
method_not_allowed = 405

abbrev pub bad_request_status : ℕ
bad_request_status = 400

module _ (a : Axum) (c : Crates) where
  -- The arguments of a handler are extracted from the request: `Query` for the one, and the URI for
  -- the other.
  unfoldable pub extract : Endpoint → HttpRequest → Action c
  extract handle_image_xva request = elim (a.query_params request.query) [
    | none ↦ rejects bad_request_status
    | some params ↦ arrives (image params)
  ]
  extract handle_not_found request = arrives (unknown_path request.path)

  -- What a request is to the server.
  unfoldable pub accept : HttpRequest → Action c
  accept request = elim (a.dispatch (build_router a) request) [
    | none ↦ rejects method_not_allowed
    | some endpoint ↦ extract endpoint request
  ]
