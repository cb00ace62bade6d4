-- ===== src/Prelude/Text.antt =====
-- JavaScript strings: the list of their UTF-16 code units, with the operations of the standard
-- library that the source uses.
use Prim.Native.Nat.{ℕ}
use Prim.Native.Char.{code}
use Prim.Native.String.{String}
use mathlib.Core.Path.{◌≡◌, refl}
use mathlib.Core.Logic.{◌↔◌}
use mathlib.Core.Bool.{Bool, true, false, ◌&&◌, ◌||◌}
use mathlib.Core.List.{List, [], ◌∷◌, reverse}
use native.Mathlib.Omega.{arith}
use tracegarden.Prelude.Tests.{ltb, leb, ◌==◌, if◌then◌else◌}

abbrev pub Str : Type 0
Str = List ℕ

-- The code units of a literal without characters beyond the basic plane.
abbrev pub js : String → Str
js String.[] = []
js (String.◌∷◌ c s) = code c ∷ js s

-- `a === b` on strings.
infix 50 ◌===◌
unfoldable pub ◌===◌ : Str → Str → Bool
[] === [] = true
[] === (y ∷ ys) = false
(x ∷ xs) === [] = false
(x ∷ xs) === (y ∷ ys) = x == y && xs === ys

pub ===_iff : (a b : Str) → ((a === b) ≡ true) ↔ (a ≡ b)
unfolding ◌===◌
===_iff [] [] = ground arith
===_iff [] (y ∷ ys) = ground arith
===_iff (x ∷ xs) [] = ground arith
===_iff (x ∷ xs) (y ∷ ys) = ground (arith, ===_iff xs ys)

pub ===_refl : (a : Str) → (a === a) ≡ true
===_refl a = (===_iff a a).1 refl

-- `a < b` on strings: the order of the code units.
unfoldable pub ltb_str : Str → Str → Bool
ltb_str xs [] = false
ltb_str [] (y ∷ ys) = true
ltb_str (x ∷ xs) (y ∷ ys) = let rest = ltb_str xs ys in ltb x y || (x == y && rest)

-- White space and line terminators, as `trim` takes them.
unfoldable pub is_space : ℕ → Bool
is_space c =
    (leb 9 c && leb c 13)
    || c == 32
    || c == 160
    || c == 0x1680
    || (leb 0x2000 c && leb c 0x200a)
    || c == 0x2028
    || c == 0x2029
    || c == 0x202f
    || c == 0x205f
    || c == 0x3000
    || c == 0xfeff

unfoldable pub trim_start : Str → Str
trim_start [] = []
trim_start (c ∷ s) = let rest = trim_start s in if is_space c then rest else c ∷ s

-- `s.trim()`.
unfoldable pub trim : Str → Str
unfolding trim_start is_space
trim s = reverse (trim_start (reverse (trim_start s)))

-- `Boolean(s)`: only the empty string is falsy.
abbrev pub truthy : Str → Bool
truthy [] = false
truthy (c ∷ s) = true
