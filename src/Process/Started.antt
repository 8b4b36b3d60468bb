-- ===== src/Process/Started.antt =====
-- What `main` has done when the process begins to serve.
use xoa_proxy.Stream.{build_client}
use xoa_proxy.Config.{load}
use xoa_proxy.Prelude.{ℕ, ◌*◌, ◌≡◌, inl, inr, Bool, true, false}
use xoa_proxy.Rust.Result.{Result, ok, Result-cases}
use xoa_proxy.Crates.{Crates}
use xoa_proxy.Lifecycle.Listener.{Sockets, listener}
use xoa_proxy.Server.{start}
use xoa_proxy.Process.{Process, main, assemble}

module _ (c : Crates) (o : Sockets) where
  -- What `main` has done when it begins to serve.
  pub record Started (now : ℕ) (p : Process c o) : Type 0 where
    pub client_verify : c.Client
    pub client_no_verify : c.Client
    pub activated : Bool
    pub bound : o.Listener
    pub built_verify : build_client c true ≡ ok client_verify
    pub built_no_verify : build_client c false ≡ ok client_no_verify
    pub listens : listener o (load o.env).bind (load o.env).port ≡ ok (bound, activated)
    pub assembled :
        p
        ≡ assemble c o
            (start c client_verify client_no_verify)
            ((load o.env).idle_timeout * 1_000_000_000)
            activated
            now

  pub main-Started :
      (log_opens : Bool) (local_addr : o.Listener → Result o.Error (Unit {0})) (now : ℕ)
      (p : Process c o)
      → main c o log_opens local_addr now ≡ ok p
      → Started now p
  unfolding main
  main-Started false local_addr now p h = absurd (cc)
  main-Started true local_addr now p h = elim (Result-cases (build_client c true)) [
    | inr (e, failed) ↦ absurd (cc (rw failed at h))
    | inl (v, e1) ↦ elim (Result-cases (build_client c false)) [
      | inr (e, failed) ↦ absurd (cc (rw (e1, failed) at h))
      | inl (n, e2) ↦ elim (Result-cases (listener o (load o.env).bind (load o.env).port)) [
        | inr (e, failed) ↦ absurd (cc (rw (e1, e2, failed) at h))
        | inl (bound, e3) ↦ elim (Result-cases (local_addr bound.0)) [
          | inr (e, failed) ↦ absurd (cc (rw (e1, e2, e3, failed) at h))
          | inl (addr, e4) ↦ record {
            client_verify = v;
            client_no_verify = n;
            activated = bound.1;
            bound = bound.0;
            built_verify = e1;
            built_no_verify = e2;
            listens = e3;
            assembled = cc (rw (e1, e2, e3, e4) at h);
          }
        ]
      ]
    ]
  ]
