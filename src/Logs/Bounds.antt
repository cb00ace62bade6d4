-- ===== src/Logs/Bounds.antt =====
-- The bounds of a window: packages/logs/src/index.ts, `boundRecentLogWindow`.
use tracegarden.Prelude.{
  ℕ, ◌-◌, ◌≤◌, ◌<◌, ◌≡◌, refl, inl, inr, false, List, [], ◌∷◌, arith, leb, leb→le, Bool-cases,
  length, All, length-append, Str,
}
use tracegarden.Logs.Utf8.{
  scalars, encode_scalar, encode_scalars, text_encode, without_mark, units_of, text_decode,
}
use tracegarden.Logs.Lines.{utf8_prefix}
use tracegarden.Logs.Decoded.{IsScalar, scalars-IsScalar, scalars-units_of, decode-encode_scalars}
use tracegarden.Logs.Cut.{fitting, take-prefix_end, length-fitting}

-- A text of UTF-16 code units.
abbrev pub IsUtf16 : Str → Type 0
IsUtf16 s = All (λ u. u < 0x10000) s

fitting-IsScalar : (n : ℕ) (cs : List ℕ) → All IsScalar cs → All IsScalar (fitting n cs)
fitting-IsScalar n [] h = tt
fitting-IsScalar n (c ∷ cs) h =
    ground (arith, fitting-IsScalar (n - length (encode_scalar c)) cs h.1)

without_mark-IsScalar : (cs : List ℕ) → All IsScalar cs → All IsScalar (without_mark cs)
without_mark-IsScalar [] h = tt
without_mark-IsScalar (c ∷ cs) h = ground arith

-- A text that is too long becomes what fits of its scalar values, without a byte order mark.
pub utf8_prefix-long :
    (value : Str) (maximum_bytes : ℕ)
    → IsUtf16 value
    → leb (length (text_encode value)) maximum_bytes ≡ false
    → utf8_prefix value maximum_bytes
      ≡ units_of (without_mark (fitting maximum_bytes (scalars value)))
unfolding utf8_prefix text_encode text_decode
utf8_prefix-long value maximum_bytes h long =
    let valid = scalars-IsScalar value h in
    rw
      (
        long,
        take-prefix_end (scalars value) maximum_bytes valid,
        decode-encode_scalars (fitting maximum_bytes (scalars value))
            (fitting-IsScalar maximum_bytes (scalars value) valid),
      )
      refl

length-without_mark :
    (cs : List ℕ) → length (encode_scalars (without_mark cs)) ≤ length (encode_scalars cs)
length-without_mark [] = omega arith
length-without_mark (c ∷ cs) = ground (arith, length-append (encode_scalar c) (encode_scalars cs))

pub utf8_prefix-bytes :
    (value : Str) (maximum_bytes : ℕ)
    → IsUtf16 value
    → length (text_encode (utf8_prefix value maximum_bytes)) ≤ maximum_bytes
utf8_prefix-bytes value maximum_bytes h =
    elim (Bool-cases (leb (length (text_encode value)) maximum_bytes)) [
      | inl short ↦ unfold utf8_prefix in rw short (leb→le _ _ short)
      | inr long ↦
          let cs = fitting maximum_bytes (scalars value) in
          let valid =
            without_mark-IsScalar cs
              (fitting-IsScalar maximum_bytes (scalars value) (scalars-IsScalar value h)) in
          rw (utf8_prefix-long value maximum_bytes h long) (
            unfold text_encode in
            rw (scalars-units_of (without_mark cs) valid)
              (omega (arith, length-without_mark cs, length-fitting maximum_bytes (scalars value))))
    ]
