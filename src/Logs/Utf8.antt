-- ===== src/Logs/Utf8.antt =====
-- `TextEncoder` and `TextDecoder` of the Encoding standard, as packages/logs/src/index.ts uses them:
-- UTF-8 from UTF-16 code units, and back with U+FFFD for what is malformed.
use tracegarden.Prelude.{
  ℕ, ◌+◌, ◌-◌, ◌*◌, ◌/◌, ◌%◌, Bool, ◌&&◌, ◌||◌, Option, none, some, List, [], ◌∷◌, ◌++◌, ltb, leb,
  ◌==◌, if◌then◌else◌, Str,
}

abbrev pub replacement : ℕ
replacement = 0xfffd

unfoldable pub is_high : ℕ → Bool
is_high u = leb 0xd800 u && leb u 0xdbff

unfoldable pub is_low : ℕ → Bool
is_low u = leb 0xdc00 u && leb u 0xdfff

abbrev pub scalar_of : ℕ → ℕ
scalar_of u = if is_high u || is_low u then replacement else u

-- The scalar values of a string. A surrogate without its other half is replaced.
unfoldable pub scalars : Str → List ℕ
unfolding is_high is_low
scalars [] = []
scalars (u ∷ []) = scalar_of u ∷ []
scalars (u ∷ v ∷ s) =
    let pair = (0x10000 + (u - 0xd800) * 1024 + (v - 0xdc00)) ∷ scalars s in
    let single = scalar_of u ∷ scalars (v ∷ s) in if is_high u && is_low v then pair else single

-- The code units of a scalar value.
unfoldable pub units : ℕ → Str
units c =
    if ltb c 0x10000
    then c ∷ []
    else (0xd800 + (c - 0x10000) / 1024) ∷ (0xdc00 + (c - 0x10000) % 1024) ∷ []

unfoldable pub encode_scalar : ℕ → List ℕ
encode_scalar c =
    if ltb c 0x80
    then c ∷ []
    else if ltb c 0x800
    then (0xc0 + c / 64) ∷ (0x80 + c % 64) ∷ []
    else if ltb c 0x10000
    then (0xe0 + c / 4096) ∷ (0x80 + c / 64 % 64) ∷ (0x80 + c % 64) ∷ []
    else (0xf0 + c / 262144) ∷ (0x80 + c / 4096 % 64) ∷ (0x80 + c / 64 % 64) ∷ (0x80 + c % 64) ∷ []

abbrev pub encode_scalars : List ℕ → List ℕ
encode_scalars [] = []
encode_scalars (c ∷ cs) = encode_scalar c ++ encode_scalars cs

-- `new TextEncoder().encode(s)`.
unfoldable pub text_encode : Str → List ℕ
unfolding scalars encode_scalar
text_encode s = encode_scalars (scalars s)

-- A sequence that is not complete: how many bytes it wants, the value of those that it has, and the
-- bounds of the next.
pub record Pending : Type 0 where
  pub wanted : ℕ
  pub value : ℕ
  pub lower : ℕ
  pub upper : ℕ

-- What the first byte of a sequence gives: scalar values, or a sequence to complete.
unfoldable pub first_byte : ℕ → List ℕ × Option Pending
first_byte b =
    if leb b 0x7f
    then (b ∷ [], none)
    else if leb 0xc2 b && leb b 0xdf
    then ([], some (record { wanted = 1; value = b - 0xc0; lower = 0x80; upper = 0xbf }))
    else if leb 0xe0 b && leb b 0xef
    then (
      [],
      some (record {
        wanted = 2;
        value = b - 0xe0;
        lower = (if b == 0xe0 then 0xa0 else 0x80);
        upper = (if b == 0xed then 0x9f else 0xbf);
      }),
    )
    else if leb 0xf0 b && leb b 0xf4
    then (
      [],
      some (record {
        wanted = 3;
        value = b - 0xf0;
        lower = (if b == 0xf0 then 0x90 else 0x80);
        upper = (if b == 0xf4 then 0x8f else 0xbf);
      }),
    )
    else (replacement ∷ [], none)

-- A byte in the bounds goes on with a sequence; another ends it as malformed, and is the first of
-- the next.
unfoldable pub next_byte : Pending → ℕ → List ℕ × Option Pending
unfolding first_byte
next_byte p b =
    if leb p.lower b && leb b p.upper
    then (let value = p.value * 64 + (b - 0x80) in
        if p.wanted == 1 then (value ∷ [], none) else (
          [],
          some (record { wanted = p.wanted - 1; value = value; lower = 0x80; upper = 0xbf }),
        ))
    else (replacement ∷ (first_byte b).0, (first_byte b).1)

unfoldable pub decode_from : Option Pending → List ℕ → List ℕ
unfolding first_byte next_byte
decode_from none [] = []
decode_from (some p) [] = replacement ∷ []
decode_from none (b ∷ bytes) = (first_byte b).0 ++ decode_from (first_byte b).1 bytes
decode_from (some p) (b ∷ bytes) = (next_byte p b).0 ++ decode_from (next_byte p b).1 bytes

-- A byte order mark at the beginning is dropped.
abbrev pub without_mark : List ℕ → List ℕ
without_mark [] = []
without_mark (c ∷ cs) = if c == 0xfeff then cs else c ∷ cs

abbrev pub units_of : List ℕ → Str
units_of [] = []
units_of (c ∷ cs) = units c ++ units_of cs

-- `new TextDecoder().decode(bytes)`.
unfoldable pub text_decode : List ℕ → Str
unfolding decode_from units
text_decode bytes = units_of (without_mark (decode_from none bytes))
