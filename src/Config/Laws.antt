-- ===== src/Config/Laws.antt =====
-- What the loaded configuration is, whatever the environment holds.
use xoa_proxy.Prelude.{
  ℕ, zero, suc, ◌^◌, ◌≤◌, ◌<◌, ◌≡◌, refl, ◌⊎◌, inl, inr, Option, none, some, and_then, keep_if,
  unwrap_or, Option-cases, ltb, lt→ltb, arith,
}
use xoa_proxy.Rust.Text.{Text, codes}
use xoa_proxy.Rust.Number.{parse_uint}
use xoa_proxy.Rust.Number.Laws.{Denotes, parse_uint_iff}
use xoa_proxy.Config.{load}

-- The variable holds the decimal numeral of `n`, which is `least` at least and below `bound`.
abbrev pub Holds : Option Text → (bound least n : ℕ) → Type 0
Holds setting bound least n =
    (s : Text) × (setting ≡ some s) × Denotes s n × (n < bound) × (least ≤ n)

-- The setting where it is acceptable, and the default where no number is.
abbrev pub Selects : Option Text → (bound least default n : ℕ) → Type 0
Selects setting bound least default n =
    Holds setting bound least n ⊎ (((m : ℕ) → ¬ Holds setting bound least m) × (n ≡ default))

-- The two chains of `load` for a number.
abbrev number_setting : ℕ → Option Text → Option ℕ
number_setting bound setting = and_then setting (parse_uint bound)

number_setting_iff_sound :
    (setting : Option Text) (bound n : ℕ)
    → 0 < bound
    → number_setting bound setting ≡ some n
    → Holds setting bound 0 n
number_setting_iff_sound none bound n b e = absurd (cc)
number_setting_iff_sound (some s) bound n b e =
    let (d, lt) = (parse_uint_iff bound s n b).0 e in (s, refl, d, lt, omega arith)

number_setting-none :
    (setting : Option Text) (bound least : ℕ)
    → 0 < bound
    → number_setting bound setting ≡ none
    → (m : ℕ) → ¬ Holds setting bound least m
number_setting-none none bound least b e m (s, h, _, _, _) = cc
number_setting-none (some s) bound least b e m (s', h, d, lt, _) =
    let found = (parse_uint_iff bound s' m b).1 (d, lt) in ground (arith, h, found)

unfiltered-Selects :
    (setting : Option Text) (bound default : ℕ)
    → 0 < bound
    → Selects setting bound 0 default (unwrap_or default (number_setting bound setting))
unfiltered-Selects setting bound default b = elim (Option-cases (number_setting bound setting)) [
  | inl e ↦ rw e (inr (number_setting-none setting bound 0 b e, refl))
  | inr (n, e) ↦ rw e (inl (number_setting_iff_sound setting bound n b e))
]

Holds-unique :
    (setting : Option Text) (bound least n m : ℕ)
    → 0 < bound
    → number_setting bound setting ≡ some n
    → Holds setting bound least m
    → m ≡ n
Holds-unique none bound least n m b e (s, h, d, lt, le) = absurd (cc)
Holds-unique (some s) bound least n m b e (s', h, d, lt, le) =
    let found = (parse_uint_iff bound s' m b).1 (d, lt) in ground (arith, h, found)

filtered_some-Selects :
    (setting : Option Text) (bound default n : ℕ)
    → 0 < bound
    → number_setting bound setting ≡ some n
    → Selects setting bound 1 default (unwrap_or default (keep_if (λ s. ltb 0 s) (some n)))
filtered_some-Selects setting bound default zero b e =
    inr (λ m h. omega (arith, Holds-unique setting bound 1 0 m b e h, h.4), refl)
filtered_some-Selects setting bound default (suc n) b e =
    let (s, h, d, lt, _) = number_setting_iff_sound setting bound (suc n) b e in
    rw (lt→ltb 0 (suc n) (omega arith)) (inl (s, h, d, lt, omega arith))

filtered-Selects :
    (setting : Option Text) (bound default : ℕ)
    → 0 < bound
    → Selects setting bound 1 default
        (unwrap_or default (keep_if (λ s. ltb 0 s) (number_setting bound setting)))
filtered-Selects setting bound default b = elim (Option-cases (number_setting bound setting)) [
  | inl e ↦ rw e (inr (number_setting-none setting bound 1 b e, refl))
  | inr (n, e) ↦ rw e (filtered_some-Selects setting bound default n b e)
]

-- Whatever the environment holds, the port and the idle delay are each the decimal numeral in their
-- variable where that is in range (a port below 2 ^ 16; a delay from 1 below 2 ^ 64), and else the
-- default, 9001 or 60.
pub load-Selects :
    (env : Text → Option Text)
    → Selects (env (codes "XOA_PROXY_PORT")) (2 ^ 16) 0 9001 (load env).port
      × Selects (env (codes "XOA_PROXY_IDLE_SECONDS")) (2 ^ 64) 1 60 (load env).idle_timeout
unfolding load
load-Selects env = (
  unfiltered-Selects (env (codes "XOA_PROXY_PORT")) (2 ^ 16) 9001 (omega arith),
  filtered-Selects (env (codes "XOA_PROXY_IDLE_SECONDS")) (2 ^ 64) 60 (omega arith),
)
