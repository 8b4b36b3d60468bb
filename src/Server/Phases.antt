-- ===== src/Server/Phases.antt =====
-- The abstract proxy: each request is in one phase, and nothing else is known of it.
use xoa_proxy.Prelude.{
  ℕ, ◌≡◌, ◌≢◌, ◌⊎◌, Bool, true, false, ◌||◌, some, List, [], ◌∷◌, ◌++◌, get_elem?, set,
}
use xoa_proxy.Error.{ProxyError, import_in_progress}
use xoa_proxy.Server.Count.{one_if, total}

pub data Phase : Type 0 where
  probing : Phase  -- finding out the format
  connecting : Phase  -- waiting for the image
  streaming : Phase  -- sending the image
  refused : ProxyError → Phase  -- sending an error
  rejected : Phase  -- sending the router's own answer
  ended : Phase

abbrev pub is_importing : Phase → Bool
is_importing probing = false
is_importing connecting = true
is_importing streaming = true
is_importing (refused e) = false
is_importing rejected = false
is_importing ended = false

abbrev pub is_live : Phase → Bool
is_live ended = false
is_live probing = true
is_live connecting = true
is_live streaming = true
is_live (refused e) = true
is_live rejected = true

abbrev pub count : (Phase → Bool) → List Phase → ℕ
count p = total (λ x. one_if (p x))

-- Whether a request imports.
abbrev pub is_busy : List Phase → Bool
is_busy [] = false
is_busy (x ∷ xs) = is_importing x || is_busy xs

-- What becomes of a request when the upstream has answered it; `busy` tells whether a request
-- imports.
pub data Progress (busy : Bool) : Phase → Phase → Type 0 where
  admits : busy ≡ false → Progress busy probing connecting
  conflicts : busy ≡ true → Progress busy probing (refused import_in_progress)
  rejects : {e : ProxyError} → e ≢ import_in_progress → Progress busy probing (refused e)
  streams : Progress busy connecting streaming
  breaks : {e : ProxyError} → e ≢ import_in_progress → Progress busy connecting (refused e)

-- What a request is when it has arrived: the router has answered it, or it waits for its probe, or
-- has gone past it.
abbrev pub Begins : Bool → Phase → Type 0
Begins busy x = (x ≡ rejected) ⊎ ((x ≡ probing) ⊎ Progress busy probing x)

abbrev pub Awaits : Phase → Type 0
Awaits x = (x ≡ probing) ⊎ (x ≡ connecting)

pub data Label : Type 0 where
  arrival poll : Label
  answer leaving : ℕ → Label

pub data Move : Label → List Phase → List Phase → Type 0 where
  arrive : {xs : List Phase} {x : Phase} → Begins (is_busy xs) x → Move arrival xs (xs ++ x ∷ [])
  progress :
      {xs : List Phase} {i : ℕ} {x y : Phase}
      → get_elem? xs i ≡ some x
      → Progress (is_busy xs) x y
      → Move (answer i) xs (set xs i y)
  -- An answer that nobody waits for.
  ignore :
      {xs : List Phase} {i : ℕ}
      → ((x : Phase) → get_elem? xs i ≡ some x → ¬ Awaits x)
      → Move (answer i) xs xs
  send : {xs : List Phase} → Move poll xs xs
  leave : {xs : List Phase} {i : ℕ} → Move (leaving i) xs (set xs i ended)

pub data Moves : List Label → List Phase → List Phase → Type 0 where
  here : {xs : List Phase} → Moves [] xs xs
  then :
      {l : Label} {ls : List Label} {xs ys zs : List Phase}
      → Move l xs ys
      → Moves ls ys zs
      → Moves (l ∷ ls) xs zs
