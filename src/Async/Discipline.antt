-- ===== src/Async/Discipline.antt =====
-- What holds of a program at every await and at every use of the import lock.
use xoa_proxy.Prelude.{◌≡◌, Bool, true, false}
use xoa_proxy.Rust.Result.{Result}
use xoa_proxy.Crates.{Crates}
use xoa_proxy.Async.{
  UpstreamRequest, Async, done, fail, send, try_lock, drop_guard, log, ◌>>=◌, map_err,
}

-- From `held` on, each upstream request meets `P`, given whether the guard is held when it is sent;
-- the lock is tried only without a guard; only a held guard is dropped; a success holds the guard
-- just as `last` says, and an error never holds it.
abbrev pub Keeps :
    {c : Crates} {E A : Type 0}
    → (Bool → UpstreamRequest c → Type 0)
    → (last held : Bool) → Async c E A
    → Type 0
Keeps P last held (done a) = held ≡ last
Keeps P last held (fail e) = held ≡ false
Keeps {c} P last held (send q k) =
    P held q × ((r : Result c.Error c.Response) → Keeps P last held (k r))
Keeps P last held (try_lock k) =
    (held ≡ false) × Keeps P last true (k true) × Keeps P last false (k false)
Keeps P last held (drop_guard m) = (held ≡ true) × Keeps P last false m
Keeps P last held (log l m) = Keeps P last held m

module _ {c : Crates} (P : Bool → UpstreamRequest c → Type 0) where
  pub Keeps->>= :
      {E A B : Type 0} (mid last held : Bool) (m : Async c E A) (f : A → Async c E B)
      → Keeps P mid held m
      → ((a : A) → Keeps P last mid (f a))
      → Keeps P last held (m >>= f)
  Keeps->>= mid last held (done a) f h k = rw h (k a)
  Keeps->>= mid last held (fail e) f h k = h
  Keeps->>= mid last held (send q g) f h k = (h.0, λ r. Keeps->>= mid last held (g r) f (h.1 r) k)
  Keeps->>= mid last held (try_lock g) f h k =
      (h.0, Keeps->>= mid last true (g true) f h.1 k, Keeps->>= mid last false (g false) f h.2 k)
  Keeps->>= mid last held (drop_guard m) f h k = (h.0, Keeps->>= mid last false m f h.1 k)
  Keeps->>= mid last held (log l m) f h k = Keeps->>= mid last held m f h k

  pub Keeps-map_err :
      {E F A : Type 0} (g : E → Async c F A) (last held : Bool) (m : Async c E A)
      → ((e : E) → Keeps P last false (g e))
      → Keeps P last held m
      → Keeps P last held (map_err g m)
  Keeps-map_err g last held (done a) w h = h
  Keeps-map_err g last held (fail e) w h = rw h (w e)
  Keeps-map_err g last held (send q k) w h = (h.0, λ r. Keeps-map_err g last held (k r) w (h.1 r))
  Keeps-map_err g last held (try_lock k) w h =
      (h.0, Keeps-map_err g last true (k true) w h.1, Keeps-map_err g last false (k false) w h.2)
  Keeps-map_err g last held (drop_guard m) w h = (h.0, Keeps-map_err g last false m w h.1)
  Keeps-map_err g last held (log l m) w h = Keeps-map_err g last held m w h

pub Keeps-mono :
    {c : Crates} {E A : Type 0} (P Q : Bool → UpstreamRequest c → Type 0)
    → ((held : Bool) (q : UpstreamRequest c) → P held q → Q held q)
    → (last held : Bool) (m : Async c E A) → Keeps P last held m
    → Keeps Q last held m
Keeps-mono P Q w last held (done a) h = h
Keeps-mono P Q w last held (fail e) h = h
Keeps-mono P Q w last held (send q k) h =
    (w held q h.0, λ r. Keeps-mono P Q w last held (k r) (h.1 r))
Keeps-mono P Q w last held (try_lock k) h =
    (h.0, Keeps-mono P Q w last true (k true) h.1, Keeps-mono P Q w last false (k false) h.2)
Keeps-mono P Q w last held (drop_guard m) h = (h.0, Keeps-mono P Q w last false m h.1)
Keeps-mono P Q w last held (log l m) h = Keeps-mono P Q w last held m h
