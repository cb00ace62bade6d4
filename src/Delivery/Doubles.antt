-- ===== src/Delivery/Doubles.antt =====
-- The JavaScript numbers that are whole and not negative, as packages/delivery/src/index.ts computes
-- with them: the exact result is rounded to 53 bits, to the even neighbour of two, and what is too large
-- is an infinity.
use tracegarden.Prelude.{
  ℕ, zero, suc, ◌+◌, ◌-◌, ◌*◌, ◌/◌, ◌%◌, ◌^◌, ◌≤◌, ◌≡◌, refl, ◌⊎◌, inl, inr, Bool, true, false,
  arith, ltb, leb, ◌==◌, if◌then◌else◌, Bool-cases,
}
use tracegarden.Prelude.Value.{max_safe_integer}

pub data Double : Type 0 where
  finite : ℕ → Double
  infinite : Double

-- To a multiple of two, and of four: a half goes to the even one.
abbrev nearest_two : ℕ → ℕ
nearest_two n = if n % 4 == 3 then n + 1 else if n % 4 == 1 then n - 1 else n

abbrev nearest_four : ℕ → ℕ
nearest_four n =
    if n % 4 == 3
    then n + 1
    else if n % 4 == 1
    then n - 1
    else if n % 8 == 6
    then n + 2
    else if n % 8 == 2
    then n - 2
    else n

-- Half of a number, whose last bit says whether the number has any bits behind.
abbrev sticky_half : ℕ → ℕ
sticky_half n = if n % 4 == 1 then n / 2 + 1 else n / 2

abbrev doubled : Double → Double
doubled infinite = infinite
doubled (finite n) = finite (2 * n)

-- 2^54 and 2^55 are where the distance of numbers becomes four and eight. A number that is halved more
-- often than the fuel is beyond 2^1024.
unfoldable pub rounded : ℕ → ℕ → Double
rounded zero n = infinite
rounded (suc fuel) n = elim (ltb n 36028797018963968) [
  | true ↦ finite (if ltb n 18014398509481984 then nearest_two n else nearest_four n)
  | false ↦ doubled (rounded fuel (sticky_half n))
]

abbrev within_range : Double → Double
within_range infinite = infinite
within_range (finite n) = if ltb n (2 ^ 1024) then finite n else infinite

unfoldable pub round : ℕ → Double
unfolding rounded
round n = elim (leb n max_safe_integer) [ true ↦ finite n | false ↦ within_range (rounded 971 n) ]

-- `a * n` for a whole `n` that is not zero, and `a + b`.
unfoldable pub times : Double → ℕ → Double
unfolding round
times infinite n = infinite
times (finite a) n = round (a * n)

unfoldable pub plus : Double → Double → Double
unfolding round
plus infinite b = infinite
plus (finite a) infinite = infinite
plus (finite a) (finite b) = round (a + b)

-- What may be used: up to a number; where that would be NaN nothing is more.
pub data Limit : Type 0 where
  at_most : Double → Limit
  unlimited : Limit

-- `a > limit`.
unfoldable pub exceeds : Double → Limit → Bool
exceeds a unlimited = false
exceeds a (at_most infinite) = false
exceeds infinite (at_most (finite n)) = true
exceeds (finite a) (at_most (finite n)) = ltb n a

abbrev pub minimum : Double → Double → Double
minimum infinite b = b
minimum (finite a) infinite = finite a
minimum (finite a) (finite b) = if leb a b then finite a else finite b

nearest_lower :
    (n : ℕ)
    → 9007199254740992 ≤ n
    → 9007199254740992 ≤ (if ltb n 18014398509481984 then nearest_two n else nearest_four n)
nearest_lower n h = ground arith

sticky_lower : (n : ℕ) → ltb n 36028797018963968 ≡ false → 9007199254740992 ≤ sticky_half n
sticky_lower n h = ground arith

pub Double-cases : (a : Double) → (a ≡ infinite) ⊎ ((n : ℕ) × (a ≡ finite n))
Double-cases infinite = inl refl
Double-cases (finite n) = inr (n, refl)

pub finite_inj : (n m : ℕ) → finite n ≡ finite m → n ≡ m
finite_inj n m h = cc

-- A number that is not safe is not rounded to one that is.
rounded_lower :
    (fuel n m : ℕ) → 9007199254740992 ≤ n → rounded fuel n ≡ finite m → 9007199254740992 ≤ m
unfolding rounded
rounded_lower zero n m h e = absurd cc
rounded_lower (suc fuel) n m h e = elim (Bool-cases (ltb n 36028797018963968)) [
  | inl t ↦
      let same = finite_inj _ m (rw (t, rounded) at e) in omega (arith, same, nearest_lower n h)
  | inr t ↦ elim (Double-cases (rounded fuel (sticky_half n))) [
    | inl q ↦ let bad : infinite ≡ finite m = rw (t, rounded, q) at e in absurd cc
    | inr (k, q) ↦
        let same : 2 * k ≡ m = finite_inj _ m (rw (t, rounded, q) at e) in
        let lower = rounded_lower fuel (sticky_half n) k (sticky_lower n t) q in
        omega (arith, same, lower)
  ]
]

within_range-finite : (a : Double) (m : ℕ) → within_range a ≡ finite m → a ≡ finite m
within_range-finite infinite m h = h
within_range-finite (finite n) m h = elim (Bool-cases (ltb n (2 ^ 1024))) [
  | inl t ↦ rw t at h
  | inr t ↦ let bad : infinite ≡ finite m = rw t at h in absurd cc
]

pub round_safe : (n : ℕ) → leb n max_safe_integer ≡ true → round n ≡ finite n
unfolding round
round_safe n h = rw (h, round) refl

pub round_unsafe :
    (n m : ℕ) → leb n max_safe_integer ≡ false → round n ≡ finite m → leb m max_safe_integer ≡ false
unfolding round
round_unsafe n m h e =
    let large =
      rounded_lower 971 n m (ground (arith, h)) (within_range-finite _ m (rw (h, round) at e)) in
    ground (arith, large)

below : (x y z : ℕ) → ltb z (x + y) ≡ false → x + y ≤ z
below x y z h = ground (arith, h)

contrary :
    (m z : ℕ) → leb z max_safe_integer ≡ true → leb m max_safe_integer ≡ false → ltb z m ≡ false → ⊥
contrary m z s l h = ground (arith, s, l, h)

-- A sum that does not exceed a safe limit is exact.
pub plus-exact :
    (x z : ℕ) (b : Double)
    → leb z max_safe_integer ≡ true
    → exceeds (plus (finite x) b) (at_most (finite z)) ≡ false
    → (y : ℕ) × (b ≡ finite y) × (plus (finite x) b ≡ finite (x + y)) × (x + y ≤ z)
unfolding plus exceeds
plus-exact x z infinite s h = absurd cc
plus-exact x z (finite y) s h = elim (Bool-cases (leb (x + y) max_safe_integer)) [
  | inl t ↦ (y, refl, round_safe (x + y) t, below x y z (rw (round_safe (x + y) t) at h))
  | inr t ↦ elim (Double-cases (round (x + y))) [
    | inl q ↦ let bad : true ≡ false = rw q at h in absurd cc
    | inr (m, q) ↦
        let large = round_unsafe (x + y) m t q in
        let small : ltb z m ≡ false = rw q at h in absurd (contrary m z s large small)
  ]
]
