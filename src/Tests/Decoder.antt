-- ===== src/Tests/Decoder.antt =====
-- A decoder of one member: a magic byte, the length of the data, and the data.
use mathlib.Core.Option
use xoa_proxy.Prelude.{
  ℕ, zero, suc, ◌≡◌, refl, ap, ◌∙◌, inl, inr, Bool-cases, Option-cases, Option, none, some, [], ◌∷◌,
  ◌++◌, length, unwrap_or, ◌==◌, ==_iff, if◌then◌else◌,
}
use xoa_proxy.Crates.{Bytes}

-- `n` bytes, if there are as many.
abbrev pub take_all : ℕ → Bytes → Option Bytes
take_all zero s = some []
take_all (suc n) [] = none
take_all (suc n) (b ∷ s) = Option.map (λ p. b ∷ p) (take_all n s)

abbrev pub member_of : Option Bytes → Bytes × Option ℕ
member_of none = ([], some 1)
member_of (some plain) = (plain, none)

abbrev pub unpack : Bytes × Option ℕ → Bytes × Option ℕ
unpack ([], e) = ([], some 1)
unpack (m ∷ [], e) = ([], some 1)
unpack (m ∷ n ∷ s, e) = if m == 0x1f then member_of (take_all n s) else ([], some 1)

take_all-append : (p rest : Bytes) → take_all (length p) (p ++ rest) ≡ some p
take_all-append [] rest = refl
take_all-append (b ∷ p) rest = rw (take_all-append p rest)

take_all-split :
    (n : ℕ) (s p : Bytes)
    → take_all n s ≡ some p
    → (rest : Bytes) × (n ≡ length p) × (s ≡ p ++ rest)
take_all-split zero s p h =
    let same : [] ≡ p = ap (unwrap_or []) h in (s, ap length same, ap (λ x. x ++ s) same)
take_all-split (suc n) [] p h = absurd (cc)
take_all-split (suc n) (b ∷ s) p h = elim (Option-cases (take_all n s)) [
  | inl few ↦ absurd (cc (rw few at h))
  | inr (q, enough) ↦
      let (rest, counted, split) = take_all-split n s q enough in
      let same : b ∷ q ≡ p = ap (unwrap_or []) (rw enough at h) in
      (rest, ap suc counted ∙ ap length same, ap (◌∷◌ b) split ∙ ap (λ x. x ++ rest) same)
]

pub unpack-member :
    (r : Bytes × Option ℕ) (packed rest plain : Bytes) (e : Option ℕ)
    → packed ≡ 0x1f ∷ length plain ∷ plain
    → r ≡ (packed ++ rest, e)
    → unpack r ≡ (plain, none)
unpack-member r packed rest plain e member read =
    rw (read, member) (rw (take_all-append plain rest) refl)

pub member-unpack :
    (r : Bytes × Option ℕ) (plain : Bytes)
    → unpack r ≡ (plain, none)
    → (packed : Bytes) × (rest : Bytes) × (packed ≡ 0x1f ∷ length plain ∷ plain)
      × (r.0 ≡ packed ++ rest)
member-unpack ([], e) plain h = absurd (cc (ap (λ (r : Bytes × Option ℕ). r.1) h))
member-unpack (m ∷ [], e) plain h = absurd (cc (ap (λ (r : Bytes × Option ℕ). r.1) h))
member-unpack (m ∷ n ∷ s, e) plain h = elim (Bool-cases (m == 0x1f)) [
  | inr other ↦ absurd (cc (ap (λ (r : Bytes × Option ℕ). r.1) (rw other at h)))
  | inl magic ↦ elim (Option-cases (take_all n s)) [
    | inl few ↦ absurd (cc (ap (λ (r : Bytes × Option ℕ). r.1) (rw (magic, few) at h)))
    | inr (p, enough) ↦
        let (rest, counted, split) = take_all-split n s p enough in
        let same : p ≡ plain = ap (λ (r : Bytes × Option ℕ). r.0) (rw (magic, enough) at h) in
        let first : m ≡ 0x1f = (==_iff m 0x1f).0 magic in
        (0x1f ∷ length plain ∷ plain, rest, refl, rw (first, counted, split, same) refl)
  ]
]
