-- ===== src/Prelude/Value.antt =====
-- An `unknown` value of JavaScript, as a request body decodes to. Numbers are told apart as far as
-- the code does: integers from all others.
use tracegarden.Prelude.{
  ℕ, ◌+◌, ◌-◌, ◌*◌, Bool, true, not, ◌&&◌, Option, none, some, List, [], ◌∷◌, leb, ◌==◌,
  if◌then◌else◌, any, all, Str, ◌===◌, truthy,
}
use mathlib.Core.Option

mutual
  pub data Value : Type 0 where
    undefined : Value
    null : Value
    boolean : Bool → Value
    whole : ℕ → Value
    -- -(n + 1)
    negative : ℕ → Value
    -- NaN, an infinity, or a number with a fraction
    not_integer : Value
    string : Str → Value
    array : Items → Value
    object : Fields → Value

  pub data Items : Type 0 where
    nil : Items
    cons : Value → Items → Items

  pub data Fields : Type 0 where
    end : Fields
    field : Str → Value → Fields → Fields

-- `fields[key]`. An object has one field of a name.
unfoldable pub prop : Str → Fields → Value
prop k end = undefined
prop k (field j v fs) = let rest = prop k fs in if j === k then v else rest

-- `record` of packages/domain and packages/logs: an object that is no array.
abbrev pub record_of : Value → Option Fields
record_of (object fs) = some fs
record_of _ = none

-- `a ?? b`.
abbrev pub nullish_or : Value → Value → Value
nullish_or undefined b = b
nullish_or null b = b
nullish_or v b = v

-- `typeof value === "string" ? value : ""`.
abbrev pub text_or_empty : Value → Str
text_or_empty (string s) = s
text_or_empty _ = []

-- The texts of an array that holds nothing else.
unfoldable pub all_strings : Items → Option (List Str)
all_strings nil = some []
all_strings (cons (string s) xs) = Option.map (λ rest. s ∷ rest) (all_strings xs)
all_strings (cons _ xs) = none

abbrev pub max_safe_integer : ℕ
max_safe_integer = 9007199254740991

unfoldable pub is_digit : ℕ → Bool
is_digit c = leb b'0' c && leb c b'9'

-- /^\d+$/
unfoldable pub is_decimal : Str → Bool
unfolding is_digit
is_decimal s = truthy s && all is_digit s

-- `Number(s)` and `BigInt(s)` on decimal digits.
unfoldable pub decimal_from : ℕ → Str → ℕ
decimal_from n [] = n
decimal_from n (c ∷ s) = decimal_from (n * 10 + (c - b'0')) s

unfoldable pub decimal : Str → ℕ
unfolding decimal_from
decimal s = decimal_from 0 s

-- `new Set(xs).size === xs.length`.
unfoldable pub no_duplicates : List Str → Bool
no_duplicates [] = true
no_duplicates (x ∷ xs) = not (any (λ y. x === y) xs) && no_duplicates xs

-- `s.split(c)` for a separator of one code unit.
unfoldable pub split_on : ℕ → Str → Str × List Str
split_on c [] = ([], [])
split_on c (x ∷ s) =
    let (part, parts) = split_on c s in if x == c then ([], part ∷ parts) else (x ∷ part, parts)

abbrev pub split : ℕ → Str → List Str
split c s = let (part, parts) = split_on c s in part ∷ parts
