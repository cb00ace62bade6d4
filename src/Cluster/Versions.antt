-- ===== src/Cluster/Versions.antt =====
-- Resource versions: the two tests for an advance agree, and neither goes back.
use mathlib.Core.List.{reverse-append, reverse-reverse}
use tracegarden.Prelude.{
  ℕ, ◌≤◌, ◌<◌, ◌≡◌, refl, ap, ◌∙◌, inl, inr, Bool, true, false, ◌&&◌, Option, none, some, List, [],
  ◌∷◌, ◌++◌, reverse, arith, ltb, Bool-cases, all, Str, ◌===◌, ===_iff, is_space, trim_start, trim,
}
use tracegarden.Prelude.Value.{is_decimal, decimal, is_digit}
use tracegarden.Cluster.{
  compare_resource_versions, is_greater, should_replace, should_advance, greatest_from,
  greatest_resource_version,
}

-- The collector and the store decide alike whether a version may take the place of one that is
-- there and not empty.
pub should_advance-should_replace :
    (candidate : Str) (c : ℕ) (current : Str)
    → should_advance candidate (some (c ∷ current)) ≡ should_replace candidate (c ∷ current)
unfolding should_advance should_replace
should_advance-should_replace candidate c current = refl

is_digit-is_space : (c : ℕ) → is_digit c ≡ true → is_space c ≡ false
unfolding is_digit is_space
is_digit-is_space c h = ground arith

trim_start-decimal : (s : Str) → all is_digit s ≡ true → trim_start s ≡ s
unfolding trim_start
trim_start-decimal [] h = refl
trim_start-decimal (c ∷ s) h = ground (arith, is_digit-is_space c)

all-append : (p : ℕ → Bool) (xs ys : Str) → all p (xs ++ ys) ≡ (all p xs && all p ys)
all-append p [] ys = refl
all-append p (x ∷ xs) ys = ground (arith, all-append p xs ys)

all-reverse : (p : ℕ → Bool) (xs : Str) → all p (reverse xs) ≡ all p xs
all-reverse p [] = refl
all-reverse p (x ∷ xs) =
    ap (all p) (reverse-append (x ∷ []) xs)
    ∙ all-append p (reverse xs) (x ∷ [])
    ∙ ground (arith, all-reverse p xs)

-- Digits are no white space, so `trim` leaves a decimal version as it is.
pub trim-decimal : (s : Str) → is_decimal s ≡ true → trim s ≡ s
unfolding trim is_decimal
trim-decimal s h =
    let digits : all is_digit s ≡ true = ground arith in
    ap (λ (t : Str). reverse (trim_start (reverse t))) (trim_start-decimal s digits)
    ∙ ap (λ (t : Str). reverse t) (trim_start-decimal (reverse s) (all-reverse is_digit s ∙ digits))
    ∙ reverse-reverse s

-- A decimal version that may replace a decimal one is the greater number.
pub should_replace-lt :
    (candidate previous : Str)
    → is_decimal candidate ≡ true
    → is_decimal previous ≡ true
    → should_replace candidate previous ≡ true
    → decimal previous < decimal candidate
unfolding should_replace compare_resource_versions
should_replace-lt candidate previous dc dp h =
    ground (arith, trim-decimal candidate dc, trim-decimal previous dp)

-- A decimal version that may not replace a decimal one is not the greater number.
pub should_replace-le :
    (candidate previous : Str)
    → is_decimal candidate ≡ true
    → is_decimal previous ≡ true
    → should_replace candidate previous ≡ false
    → decimal candidate ≤ decimal previous
unfolding should_replace compare_resource_versions
should_replace-le candidate previous dc dp h = elim (Bool-cases (candidate === previous)) [
  | inl e ↦
      let same : candidate ≡ previous = (===_iff candidate previous).0 e in rw same (omega arith)
  | inr e ↦ ground (arith, trim-decimal candidate dc, trim-decimal previous dp, e, h)
]

-- A list of versions that are all decimal, and one that bounds them.
abbrev pub AllDecimal : List (Option Str) → Type 0
AllDecimal [] = Unit
AllDecimal (none ∷ rest) = AllDecimal rest
AllDecimal (some v ∷ rest) = (is_decimal v ≡ true) × AllDecimal rest

abbrev pub AllAtMost : ℕ → List (Option Str) → Type 0
AllAtMost n [] = Unit
AllAtMost n (none ∷ rest) = AllAtMost n rest
AllAtMost n (some v ∷ rest) = (decimal v ≤ n) × AllAtMost n rest

is_greater-ltb :
    (a b : Str)
    → is_decimal a ≡ true
    → is_decimal b ≡ true
    → is_greater (compare_resource_versions a b) ≡ ltb (decimal b) (decimal a)
unfolding compare_resource_versions
is_greater-ltb a b da db = ground (arith, trim-decimal a da, trim-decimal b db)

abbrev Bounds : Str → List (Option Str) → Str → Type 0
Bounds best versions g =
    (is_decimal g ≡ true) × (decimal best ≤ decimal g) × AllAtMost (decimal g) versions

greatest_from-bound :
    (best : Str) (versions : List (Option Str))
    → is_decimal best ≡ true
    → AllDecimal versions
    → (g : Str) × (greatest_from (some best) versions ≡ some g) × Bounds best versions g
unfolding greatest_from
greatest_from-bound best [] d a = (best, refl, (d, omega arith, tt))
greatest_from-bound best (none ∷ rest) d a = greatest_from-bound best rest d a
greatest_from-bound best (some v ∷ rest) d a =
    elim (Bool-cases (is_greater (compare_resource_versions v best))) [
      | inl t ↦
          let (g, e, b) = greatest_from-bound v rest a.0 a.1 in
          (g, rw t e, (b.0, ground (arith, b, is_greater-ltb v best a.0 d), (b.1, b.2)))
      | inr t ↦
          let (g, e, b) = greatest_from-bound best rest d a.1 in
          (g, rw t e, (b.0, b.1, (ground (arith, b, is_greater-ltb v best a.0 d), b.2)))
    ]

-- The greatest of decimal versions, of which the first resource has one, is found, and none of them
-- is a greater number.
pub greatest_resource_version-bound :
    (v : Str) (versions : List (Option Str))
    → AllDecimal (some v ∷ versions)
    → (g : Str) × (greatest_resource_version (some v ∷ versions) ≡ some g)
      × AllAtMost (decimal g) (some v ∷ versions)
unfolding greatest_resource_version greatest_from
greatest_resource_version-bound v versions a =
    let (g, e, b) = greatest_from-bound v versions a.0 a.1 in (g, e, (b.1, b.2))
