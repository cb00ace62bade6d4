-- ===== src/Delivery/Quantities.antt =====
-- The quantities of packages/delivery/src/index.ts, and the patterns of digests and commits.
use tracegarden.Prelude.{
  ℕ, Bool, ◌&&◌, ◌||◌, Option, none, some, [], ◌∷◌, reverse, leb, ◌==◌, if◌then◌else◌, length, take,
  drop, all, Str, js, ◌===◌, trim,
}
use tracegarden.Prelude.Result.{Result, ok, err}
use tracegarden.Delivery.Doubles.{Double, round, times}
use tracegarden.Prelude.Value.{is_decimal, decimal, is_digit, max_safe_integer}

pub data DeliveryError : Type 0 where
  bad_number bad_maximum bad_source reservation_exceeds : DeliveryError
  bad_cpu bad_memory bad_pods : Str → DeliveryError
  bad_commit not_approved not_reviewable no_repository bad_digest : DeliveryError

-- A text without its last unit, if that is the one that is given.
abbrev without_last : ℕ → Str → Option Str
without_last c s = elim (reverse s) [
  | [] ↦ none
  | x ∷ rest ↦ if x == c then some (reverse rest) else none
]

-- /^(\d+)(m)?$/, in thousandths.
unfoldable pub parse_cpu : Str → Result DeliveryError Double
unfolding is_decimal decimal round times
parse_cpu value =
    let text = trim value in
    if is_decimal text
    then ok (times (round (decimal text)) 1000)
    else elim (without_last b'm' text) [
      | none ↦ err (bad_cpu value)
      | some digits ↦ if is_decimal digits then ok (round (decimal digits)) else err (bad_cpu value)
    ]

-- The multiple of a kibibyte that a unit stands for.
unfoldable pub unit_of : ℕ → Option ℕ
unit_of c =
    if c == b'K'
    then some 1
    else if c == b'M'
    then some 1024
    else if c == b'G'
    then some 1048576
    else if c == b'T'
    then some 1073741824
    else none

abbrev memory_of : Str → Option Double
memory_of [] = none
memory_of (i ∷ []) = none
memory_of (i ∷ u ∷ rest) =
    if i == b'i' && is_decimal (reverse rest)
    then elim (unit_of u) [
      | none ↦ none
      | some unit ↦ some (times (round (decimal (reverse rest))) unit)
    ]
    else none

-- /^(\d+)(Ki|Mi|Gi|Ti)$/, in kibibytes.
unfoldable pub parse_memory : Str → Result DeliveryError Double
unfolding is_decimal decimal unit_of round times
parse_memory value = elim (memory_of (reverse (trim value))) [
  | none ↦ err (bad_memory value)
  | some n ↦ ok n
]

-- `number` is `Number` on a text, where that is an integer that is not negative.
unfoldable pub parse_pods : (Str → Option ℕ) → Str → Result DeliveryError ℕ
parse_pods number value = elim (number (trim value)) [
  | none ↦ err (bad_pods value)
  | some n ↦ if leb n max_safe_integer && leb 1 n then ok n else err (bad_pods value)
]

-- [a-f0-9]
unfoldable pub is_hex : ℕ → Bool
unfolding is_digit
is_hex c = is_digit c || (leb b'a' c && leb c b'f')

-- /^[a-f0-9]{40}$/
unfoldable pub is_git_commit : Str → Bool
unfolding is_hex
is_git_commit s = length s == 40 && all is_hex s

-- /^sha256:[a-f0-9]{64}$/
unfoldable pub is_digest : Str → Bool
unfolding is_hex
is_digest s = take 7 s === js "sha256:" && length (drop 7 s) == 64 && all is_hex (drop 7 s)
