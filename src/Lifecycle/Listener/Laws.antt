-- ===== src/Lifecycle/Listener/Laws.antt =====
-- When the proxy takes over systemd's socket, when it binds its own, and when it refuses to start.
use xoa_proxy.Prelude.{
  ℕ, ◌^◌, ◌<◌, ◌≡◌, refl, inl, inr, ◌↔◌, Bool, true, false, Option, none, some, Bool-cases,
  and_then, is_none, not, ◌&&◌, ◌||◌, arith, ==_iff,
}
use xoa_proxy.Rust.Text.{Text, codes}
use xoa_proxy.Rust.Text.Laws.{text_eq_iff}
use xoa_proxy.Rust.Number.{parse_uint}
use xoa_proxy.Rust.Number.Laws.{Denotes, parse_uint_iff}
use xoa_proxy.Rust.Result.{Result, ok, err, Result-cases}
use xoa_proxy.Lifecycle.Listener.{
  Sockets, Failure, bailed, with_context, raised, is_number, is_text, adopt, bind_own, listener,
}

module _ (o : Sockets) where
  -- systemd's protocol: the descriptor is meant for this process, and is the only one.
  abbrev pub IsActivated : Type 0
  IsActivated =
      (pid : Text) × (o.env (codes "LISTEN_PID") ≡ some pid)
      × Denotes pid o.process_id
      × (o.process_id < 2 ^ 32)
      × (o.env (codes "LISTEN_FDS") ≡ some (codes "1"))

  abbrev pub IsStandalone : Type 0
  IsStandalone = (o.env (codes "LISTEN_PID") ≡ none) × (o.env (codes "LISTEN_FDS") ≡ none)

  is_number_iff : (p : Option ℕ) (n : ℕ) → (is_number p n ≡ true) ↔ (p ≡ some n)
  is_number_iff none n = ground arith
  is_number_iff (some m) n = ground (arith, ==_iff m n)

  is_text_iff : (p : Option Text) (t : Text) → (is_text p t ≡ true) ↔ (p ≡ some t)
  is_text_iff none t = ground arith
  is_text_iff (some s) t = ground (arith, text_eq_iff s t)

  pid_iff :
      (pid : Option Text) (n : ℕ)
      → (and_then pid (parse_uint (2 ^ 32)) ≡ some n)
        ↔ ((s : Text) × (pid ≡ some s) × Denotes s n × (n < 2 ^ 32))
  pid_iff none n = (λ e. absurd (cc), λ (s, e, _, _). absurd (cc))
  pid_iff (some s) n = (
    λ e. let (d, lt) = (parse_uint_iff (2 ^ 32) s n (omega arith)).0 e in (s, refl, d, lt),
    λ (s', e, d, lt).
        let found = (parse_uint_iff (2 ^ 32) s' n (omega arith)).1 (d, lt) in
        ground (arith, e, found),
  )

  -- The metadata passes the test of the code just if it is systemd's protocol.
  activated_iff :
      ((is_number (and_then (o.env (codes "LISTEN_PID")) (parse_uint (2 ^ 32))) o.process_id ≡ true)
        × (is_text (o.env (codes "LISTEN_FDS")) (codes "1") ≡ true))
      ↔ IsActivated
  activated_iff = (
    λ (p, q).
        let (s, e, d, lt) =
          (pid_iff (o.env (codes "LISTEN_PID")) o.process_id).0 ((is_number_iff _ _).0 p) in
        (s, e, d, lt, (is_text_iff _ _).0 q),
    λ (s, e, d, lt, q). (
      (is_number_iff _ _).1 ((pid_iff (o.env (codes "LISTEN_PID")) o.process_id).1 (s, e, d, lt)),
      (is_text_iff _ _).1 q,
    ),
  )

  -- What becomes of the proxy's own socket.
  pub data Binding (bind : Text) (port : ℕ) (out : Result (Failure o.Error) (o.Listener × Bool))
      : Type 0 where
    unbound :
        (e : o.Error) → o.bind bind port ≡ err e → out ≡ err (raised e) → Binding bind port out
    bound : (l : o.Listener) → o.bind bind port ≡ ok l → out ≡ ok (l, false) → Binding bind port out

  -- What becomes of the descriptor that systemd passed on: the first step that fails, or a listener.
  pub data Adoption (fd : o.StdListener) (out : Result (Failure o.Error) (o.Listener × Bool))
      : Type 0 where
    no_address :
        (e : o.Error)
        → o.local_addr fd ≡ err e
        → out ≡ err (with_context (codes "Activated fd 3 is not an IP socket") e)
        → Adoption fd out
    still_blocking :
        (e : o.Error)
        → o.local_addr fd ≡ ok tt
        → o.set_nonblocking fd ≡ err e
        → out ≡ err (raised e)
        → Adoption fd out
    unregistered :
        (ready : o.StdListener) (e : o.Error)
        → o.local_addr fd ≡ ok tt
        → o.set_nonblocking fd ≡ ok ready
        → o.from_std ready ≡ err e
        → out ≡ err (raised e)
        → Adoption fd out
    adopted :
        (ready : o.StdListener) (l : o.Listener)
        → o.local_addr fd ≡ ok tt
        → o.set_nonblocking fd ≡ ok ready
        → o.from_std ready ≡ ok l
        → out ≡ ok (l, true)
        → Adoption fd out

  bind_own-Binding : (bind : Text) (port : ℕ) → Binding bind port (bind_own o bind port)
  unfolding bind_own
  bind_own-Binding bind port = elim (Result-cases (o.bind bind port)) [
    | inl (l, opened) ↦ bound l opened (rw opened refl)
    | inr (e, failed) ↦ unbound e failed (rw failed refl)
  ]

  adopt-Adoption : (fd : o.StdListener) → Adoption fd (adopt o fd)
  unfolding adopt
  adopt-Adoption fd = elim (Result-cases (o.local_addr fd)) [
    | inr (e, failed) ↦ no_address e failed (rw failed refl)
    | inl (tt, has_address) ↦ elim (Result-cases (o.set_nonblocking fd)) [
      | inr (e, failed) ↦ still_blocking e has_address failed (rw has_address (rw failed refl))
      | inl (ready, set) ↦ elim (Result-cases (o.from_std ready)) [
        | inr (e, failed) ↦
            unregistered ready e has_address set failed (rw has_address (rw set (rw failed refl)))
        | inl (l, listens) ↦
            adopted ready l has_address set listens (rw has_address (rw set (rw listens refl)))
      ]
    ]
  ]

  -- The three ways to start.
  pub data Start (bind : Text) (port : ℕ) (out : Result (Failure o.Error) (o.Listener × Bool))
      : Type 0 where
    standalone :
        IsStandalone → out ≡ bind_own o bind port → Binding bind port out → Start bind port out
    activated :
        ¬ IsStandalone
        → IsActivated
        → out ≡ adopt o (o.from_raw_fd 3)
        → Adoption (o.from_raw_fd 3) out
        → Start bind port out
    refused :
        ¬ IsStandalone
        → ¬ IsActivated
        → out
          ≡ err (
              bailed
                (codes "Expected LISTEN_PID for this process and exactly one LISTEN_FDS socket"))
        → Start bind port out

  is_none_iff : (p : Option Text) → (is_none p ≡ true) ↔ (p ≡ none)
  is_none_iff none = ground arith
  is_none_iff (some s) = ground arith

  alone_iff :
      ((is_none (o.env (codes "LISTEN_PID")) && is_none (o.env (codes "LISTEN_FDS"))) ≡ true)
      ↔ IsStandalone
  alone_iff =
      ground
        (arith, is_none_iff (o.env (codes "LISTEN_PID")), is_none_iff (o.env (codes "LISTEN_FDS")))

  -- The proxy binds a socket of its own if and only if neither variable of the activation protocol
  -- is set; it takes over descriptor 3 if and only if LISTEN_PID is the decimal numeral of its own
  -- process id and LISTEN_FDS is "1"; and it refuses to start in every other case. A socket
  -- of its own is a listener, or the error of the bind; the descriptor becomes one only if it has an
  -- IP address, can be made non-blocking and is registered with the runtime, in this order, and else
  -- the start fails with the error of the first of these steps that fails.
  pub listener-Start : (bind : Text) (port : ℕ) → Start bind port (listener o bind port)
  unfolding listener
  listener-Start bind port =
      let alone : Bool =
        is_none (o.env (codes "LISTEN_PID")) && is_none (o.env (codes "LISTEN_FDS")) in
      let pid : Bool =
        is_number (and_then (o.env (codes "LISTEN_PID")) (parse_uint (2 ^ 32))) o.process_id in
      let fds : Bool = is_text (o.env (codes "LISTEN_FDS")) (codes "1") in
      elim (Bool-cases alone) [
        | inl own ↦ standalone (alone_iff.0 own) (rw own) (rw own (bind_own-Binding bind port))
        | inr inherited ↦ elim (Bool-cases (not pid || not fds)) [
          | inl bad ↦
              refused (λ h. cc (alone_iff.1 h))
                (λ h. let (p, q) = activated_iff.1 h in ground arith) (rw (inherited, bad))
          | inr good ↦
              activated (λ h. cc (alone_iff.1 h)) (activated_iff.0 (ground arith, ground arith))
                (rw (inherited, good)) (rw (inherited, good) (adopt-Adoption (o.from_raw_fd 3)))
        ]
      ]
