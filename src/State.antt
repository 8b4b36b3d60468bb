-- ===== src/State.antt =====
-- src/state.rs: the state that every request shares.
use xoa_proxy.Crates.{Crates}

pub record AppState (c : Crates) : Type 0 where
  pub client_verify : c.Client
  pub client_no_verify : c.Client
  pub import_lock : c.Mutex
