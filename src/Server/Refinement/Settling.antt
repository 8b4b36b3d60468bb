-- ===== src/Server/Refinement/Settling.antt =====
-- How long a request waits for the upstream.
use xoa_proxy.Prelude.{
  ℕ, zero, suc, ◌+◌, ◌-◌, ◌≤◌, ◌<◌, ◌≡◌, ◌≢◌, refl, ap, sym, ◌∙◌, inl, inr, Bool, Bool-cases, some,
  List, [], ◌∷◌, ◌++◌, map, length, length-append, arith, get_elem?, set, ◌==◌, ==_iff,
  if◌then◌else◌,
}
use xoa_proxy.Crates.{Crates}
use xoa_proxy.Crates.Laws.{MutexLaws, WatchLaws}
use xoa_proxy.Server.{Task, Server, Action, history, start}
use xoa_proxy.Server.Phases.{
  Phase, probing, connecting, streaming, refused, rejected, ended, Progress, admits, conflicts,
  rejects, streams, breaks, Awaits, Label, arrival, poll, answer, leaving, Move, Moves,
}
use xoa_proxy.Server.Refinement.Histories.{reached-Moves}
use xoa_proxy.Server.Refinement.{view, label}

-- How many answers of the upstream a request still waits for, at most.
abbrev pub waits_for : Phase → ℕ
waits_for probing = 2
waits_for connecting = 1
waits_for streaming = 0
waits_for (refused e) = 0
waits_for rejected = 0
waits_for ended = 0

-- Of the request at a place, if there is one.
abbrev pub waits_at : List Phase → ℕ → ℕ
waits_at [] i = 0
waits_at (x ∷ xs) zero = waits_for x
waits_at (x ∷ xs) (suc i) = waits_at xs i

-- The answers to the request at a place among some labels.
abbrev pub is_answer : ℕ → Label → ℕ
is_answer i arrival = 0
is_answer i poll = 0
is_answer i (answer j) = if i == j then 1 else 0
is_answer i (leaving j) = 0

abbrev pub answers_to : ℕ → List Label → ℕ
answers_to i [] = 0
answers_to i (l ∷ ls) = is_answer i l + answers_to i ls

waits_at-append :
    (xs ys : List Phase) (i : ℕ) → i < length xs → waits_at (xs ++ ys) i ≡ waits_at xs i
waits_at-append [] ys i h = absurd (omega arith)
waits_at-append (x ∷ xs) ys zero h = refl
waits_at-append (x ∷ xs) ys (suc i) h = waits_at-append xs ys i (omega arith)

length-set : (xs : List Phase) (i : ℕ) (y : Phase) → length (set xs i y) ≡ length xs
length-set [] i y = refl
length-set (x ∷ xs) zero y = refl
length-set (x ∷ xs) (suc i) y = ap suc (length-set xs i y)

waits_at-set_self :
    (xs : List Phase) (i : ℕ) (y : Phase) → i < length xs → waits_at (set xs i y) i ≡ waits_for y
waits_at-set_self [] i y h = absurd (omega arith)
waits_at-set_self (x ∷ xs) zero y h = refl
waits_at-set_self (x ∷ xs) (suc i) y h = waits_at-set_self xs i y (omega arith)

waits_at-set_ne :
    (xs : List Phase) (i j : ℕ) (y : Phase) → i ≢ j → waits_at (set xs j y) i ≡ waits_at xs i
waits_at-set_ne [] i j y h = refl
waits_at-set_ne (x ∷ xs) zero zero y h = absurd (h refl)
waits_at-set_ne (x ∷ xs) zero (suc j) y h = refl
waits_at-set_ne (x ∷ xs) (suc i) zero y h = refl
waits_at-set_ne (x ∷ xs) (suc i) (suc j) y h = waits_at-set_ne xs i j y (λ e. h (ap suc e))

get_elem?-in : (xs : List Phase) (i : ℕ) → i < length xs → (x : Phase) × (get_elem? xs i ≡ some x)
get_elem?-in [] i h = absurd (omega arith)
get_elem?-in (x ∷ xs) zero h = (x, refl)
get_elem?-in (x ∷ xs) (suc i) h = get_elem?-in xs i (omega arith)

waits_at-get :
    (xs : List Phase) (i : ℕ) (x : Phase) → get_elem? xs i ≡ some x → waits_at xs i ≡ waits_for x
waits_at-get [] i x e = absurd (cc)
waits_at-get (z ∷ xs) zero x e = ap waits_for (cc)
waits_at-get (z ∷ xs) (suc i) x e = waits_at-get xs i x e

Progress-waits : {busy : Bool} {x y : Phase} → Progress busy x y → waits_for y ≤ waits_for x - 1
Progress-waits (admits _) = omega arith
Progress-waits (conflicts _) = omega arith
Progress-waits (rejects _) = omega arith
Progress-waits streams = omega arith
Progress-waits (breaks _) = omega arith

-- A request that awaits nothing has no answer to wait for.
idle-waits : (x : Phase) → ¬ Awaits x → waits_for x ≡ 0
idle-waits probing h = absurd (h (inl refl))
idle-waits connecting h = absurd (h (inr refl))
idle-waits streaming h = refl
idle-waits (refused e) h = refl
idle-waits rejected h = refl
idle-waits ended h = refl

-- A write at `j`, seen from `i`.
set-waits :
    (xs : List Phase) (i j n : ℕ) (y : Phase)
    → i < length xs
    → (i ≡ j → waits_for y ≤ waits_at xs i - n)
    → waits_at (set xs j y) i ≤ waits_at xs i - (if i == j then n else 0)
set-waits xs i j n y h k = elim (Bool-cases (i == j)) [
  | inl same ↦
      let e : i ≡ j = (==_iff i j).0 same in
      rw same (rw (← e) (rw (waits_at-set_self xs i y h) (k e)))
  | inr other ↦
      rw other
        (rw (waits_at-set_ne xs i j y (λ e. cc (sym other ∙ (==_iff i j).1 e))) (omega arith))
]

Move-waits :
    {l : Label} {xs ys : List Phase} (i : ℕ)
    → Move l xs ys
    → i < length xs
    → waits_at ys i ≤ waits_at xs i - is_answer i l
Move-waits {l} {xs} {ys} i (Move.arrive {xs = zs} {x = x} b) h =
    omega (arith, waits_at-append zs (x ∷ []) i h)
Move-waits i (Move.progress {xs = zs} {i = j} {x = x} {y = y} e p) h =
    set-waits zs i j 1 y h
      (λ same. omega (arith, Progress-waits p, waits_at-get zs i x (rw same e)))
Move-waits i (Move.ignore {xs = zs} {i = j} idle) h = elim (Bool-cases (i == j)) [
  | inl same ↦
      let (x, here) = get_elem?-in zs i h in
      let none_left : waits_for x ≡ 0 = idle-waits x (idle x (rw (← (==_iff i j).0 same) here)) in
      rw same (omega (arith, waits_at-get zs i x here, none_left))
  | inr other ↦ rw other (omega arith)
]
Move-waits i Move.send h = omega arith
Move-waits i (Move.leave {xs = zs} {i = j}) h =
    omega (arith, set-waits zs i j 0 ended h (λ same. omega arith))

Move-length : {l : Label} {xs ys : List Phase} → Move l xs ys → length xs ≤ length ys
Move-length (Move.arrive {xs = zs} {x = x} b) = omega (arith, length-append {0} zs (x ∷ []))
Move-length (Move.progress {xs = zs} {i = j} {y = y} e p) = omega (arith, length-set zs j y)
Move-length (Move.ignore idle) = omega arith
Move-length Move.send = omega arith
Move-length (Move.leave {xs = zs} {i = j}) = omega (arith, length-set zs j ended)

Moves-waits :
    {ls : List Label} {xs ys : List Phase} (i : ℕ)
    → Moves ls xs ys
    → i < length xs
    → waits_at ys i ≤ waits_at xs i - answers_to i ls
Moves-waits i Moves.here h = omega arith
Moves-waits i (Moves.then m ms) h =
    omega (arith, Move-waits i m h, Moves-waits i ms (omega (arith, Move-length m, h)))

waits_at-le : (xs : List Phase) (i : ℕ) → waits_at xs i ≤ 2
waits_at-le [] i = omega arith
waits_at-le (x ∷ xs) (suc i) = waits_at-le xs i
waits_at-le (probing ∷ xs) zero = omega arith
waits_at-le (connecting ∷ xs) zero = omega arith
waits_at-le (streaming ∷ xs) zero = omega arith
waits_at-le (refused e ∷ xs) zero = omega arith
waits_at-le (rejected ∷ xs) zero = omega arith
waits_at-le (ended ∷ xs) zero = omega arith

waits_for_iff : (x : Phase) → waits_for x ≡ 0 → ¬ Awaits x
waits_for_iff x h w = elim w [
  | inl e ↦ omega (arith, h, ap waits_for e)
  | inr e ↦ omega (arith, h, ap waits_for e)
]

module _ (c : Crates) (mutex : MutexLaws c) (watch : WatchLaws c) where
  -- A request is answered, or gone, as soon as the upstream has answered it twice: whatever the
  -- server had done when it arrived, and whatever the other requests, the clients and the upstream do
  -- meanwhile, a request that has arrived awaits nothing after two upstream answers to it.
  pub two_answers_settle :
      (v n : c.Client) (before actions : List (Action c)) (i : ℕ) (x : Phase)
      → i < length (history c (start c v n) before).tasks
      → 2 ≤ answers_to i (map (label c) actions)
      → get_elem? (view c (history c (history c (start c v n) before) actions).tasks) i ≡ some x
      → ¬ Awaits x
  two_answers_settle v n before actions i x arrived twice here =
      let s : Server c = history c (start c v n) before in
      let inside : i < length (view c s.tasks) = omega (arith, arrived, length-view s.tasks) in
      waits_for_iff x (
        omega (
          arith,
          Moves-waits i (reached-Moves c mutex watch v n before actions) inside,
          waits_at-le (view c s.tasks) i,
          twice,
          waits_at-get _ i x here,
        ))
    where
      length-view : (ts : List (Task c)) → length (view c ts) ≡ length ts
      length-view [] = refl
      length-view (t ∷ ts) = ap suc (length-view ts)
