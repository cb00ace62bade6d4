-- ===== src/Logs/Decoded.antt =====
-- Decoding what was encoded: `TextEncoder` and `TextDecoder`, as packages/logs/src/index.ts uses
-- them.
use tracegarden.Prelude.{
  ℕ, ◌+◌, ◌-◌, ◌*◌, ◌/◌, ◌%◌, ◌≤◌, ◌<◌, ◌≡◌, refl, ap, ◌∙◌, ◌⊎◌, inl, inr, true, false, ◌&&◌, none,
  some, List, [], ◌∷◌, ◌++◌, arith, ltb, ◌==◌, if◌then◌else◌, ltb→lt, Bool-cases, All, Str,
}
use tracegarden.Logs.Utf8.{
  is_high, is_low, scalars, units, encode_scalar, encode_scalars, Pending, first_byte, next_byte,
  decode_from, units_of,
}

-- A Unicode scalar value.
abbrev pub IsScalar : ℕ → Type 0
IsScalar c = (c < 0xd800) ⊎ ((0xe000 ≤ c) × (c < 0x110000))

pub scalars-IsScalar : (s : Str) → All (λ u. u < 0x10000) s → All IsScalar (scalars s)
unfolding scalars is_high is_low
scalars-IsScalar [] h = tt
scalars-IsScalar (u ∷ []) h = (ground arith, tt)
scalars-IsScalar (u ∷ v ∷ s) h =
    let single = scalars-IsScalar (v ∷ s) h.1 in
    let pair = scalars-IsScalar s h.1.1 in
    elim (Bool-cases (is_high u && is_low v)) [
      | inl e ↦ rw e (inr (omega arith, ground arith), pair)
      | inr e ↦ rw e (ground arith, single)
    ]

abbrev pending : ℕ → ℕ → ℕ → ℕ → Pending
pending wanted value lower upper = record {
  wanted = wanted;
  value = value;
  lower = lower;
  upper = upper;
}

first_byte-one : (v : ℕ) → v < 0x80 → first_byte v ≡ (v ∷ [], none)
unfolding first_byte
first_byte-one v h = ground arith

first_byte-two :
    (v : ℕ) → 2 ≤ v → v < 32 → first_byte (0xc0 + v) ≡ ([], some (pending 1 v 0x80 0xbf))
unfolding first_byte
first_byte-two v h h' = ground arith

first_byte-three :
    (v : ℕ)
    → v < 16
    → first_byte (0xe0 + v)
      ≡ ([], some (pending 2 v (if v == 0 then 0xa0 else 0x80) (if v == 13 then 0x9f else 0xbf)))
unfolding first_byte
first_byte-three v h = ground arith

first_byte-four :
    (v : ℕ)
    → v < 5
    → first_byte (0xf0 + v)
      ≡ ([], some (pending 3 v (if v == 0 then 0x90 else 0x80) (if v == 4 then 0x8f else 0xbf)))
unfolding first_byte
first_byte-four v h = ground arith

next_byte-last :
    (v lower upper d : ℕ)
    → lower ≤ 0x80 + d
    → 0x80 + d ≤ upper
    → next_byte (pending 1 v lower upper) (0x80 + d) ≡ ((v * 64 + d) ∷ [], none)
unfolding next_byte
next_byte-last v lower upper d h h' = ground arith

next_byte-more :
    (n v lower upper d : ℕ)
    → lower ≤ 0x80 + d
    → 0x80 + d ≤ upper
    → 1 < n
    → next_byte (pending n v lower upper) (0x80 + d)
      ≡ ([], some (pending (n - 1) (v * 64 + d) 0x80 0xbf))
unfolding next_byte
next_byte-more n v lower upper d h h' k = ground arith

module _ (c : ℕ) (rest : List ℕ) where
  decode-two :
      0x80 ≤ c
      → c < 0x800
      → decode_from none ((0xc0 + c / 64) ∷ (0x80 + c % 64) ∷ rest) ≡ c ∷ decode_from none rest
  unfolding decode_from
  decode-two h h' = rw (first_byte-two (c / 64) (omega arith) (omega arith)) (
      rw (next_byte-last (c / 64) 0x80 0xbf (c % 64) (omega arith) (omega arith))
        (ap (λ (d : ℕ). d ∷ decode_from none rest) (omega arith)))

  decode-three :
      IsScalar c
      → 0x800 ≤ c
      → c < 0x10000
      → decode_from none ((0xe0 + c / 4096) ∷ (0x80 + c / 64 % 64) ∷ (0x80 + c % 64) ∷ rest)
        ≡ c ∷ decode_from none rest
  unfolding decode_from
  decode-three h h' h'' = rw (first_byte-three (c / 4096) (omega arith)) (
      rw
        (next_byte-more 2 (c / 4096) (if c / 4096 == 0 then 0xa0 else 0x80)
          (if c / 4096 == 13 then 0x9f else 0xbf) (c / 64 % 64) (ground arith) (ground arith)
          (omega arith))
        (rw
          (next_byte-last (c / 4096 * 64 + c / 64 % 64) 0x80 0xbf (c % 64) (omega arith)
            (omega arith))
          (ap (λ (d : ℕ). d ∷ decode_from none rest) (omega arith))))

  decode-four :
      0x10000 ≤ c
      → c < 0x110000
      → decode_from none (
          (0xf0 + c / 262144)
          ∷ (0x80 + c / 4096 % 64)
          ∷ (0x80 + c / 64 % 64)
          ∷ (0x80 + c % 64)
          ∷ rest)
        ≡ c ∷ decode_from none rest
  unfolding decode_from
  decode-four h h' = rw (first_byte-four (c / 262144) (omega arith)) (
      rw
        (next_byte-more 3 (c / 262144) (if c / 262144 == 0 then 0x90 else 0x80)
          (if c / 262144 == 4 then 0x8f else 0xbf) (c / 4096 % 64) (ground arith) (ground arith)
          (omega arith))
        (rw
          (next_byte-more 2 (c / 262144 * 64 + c / 4096 % 64) 0x80 0xbf (c / 64 % 64) (omega arith)
            (omega arith) (omega arith))
          (rw
            (next_byte-last ((c / 262144 * 64 + c / 4096 % 64) * 64 + c / 64 % 64) 0x80 0xbf
              (c % 64) (omega arith) (omega arith))
            (ap (λ (d : ℕ). d ∷ decode_from none rest) (omega arith)))))

decode-encode_scalar :
    (c : ℕ) (rest : List ℕ)
    → IsScalar c
    → decode_from none (encode_scalar c ++ rest) ≡ c ∷ decode_from none rest
unfolding encode_scalar
decode-encode_scalar c rest h = elim (Bool-cases (ltb c 0x80)) [
  | inl e ↦ rw e (unfold decode_from in rw (first_byte-one c (ltb→lt c 0x80 e)) refl)
  | inr e ↦ elim (Bool-cases (ltb c 0x800)) [
    | inl e' ↦ rw (e, e') (decode-two c rest (ground arith) (ground arith))
    | inr e' ↦ elim (Bool-cases (ltb c 0x10000)) [
      | inl e'' ↦ rw (e, e', e'') (decode-three c rest h (ground arith) (ground arith))
      | inr e'' ↦ rw (e, e', e'') (decode-four c rest (ground arith) (ground arith))
    ]
  ]
]

pub decode-encode_scalars :
    (cs : List ℕ) → All IsScalar cs → decode_from none (encode_scalars cs) ≡ cs
decode-encode_scalars [] h = unfold decode_from in refl
decode-encode_scalars (c ∷ cs) h =
    decode-encode_scalar c (encode_scalars cs) h.0
    ∙ ap (λ ds. c ∷ ds) (decode-encode_scalars cs h.1)

scalars-single :
    (c : ℕ) (s : Str) → is_high c ≡ false → is_low c ≡ false → scalars (c ∷ s) ≡ c ∷ scalars s
unfolding scalars
scalars-single c [] h h' = rw (h, h') refl
scalars-single c (v ∷ s) h h' = rw (h, h') refl

scalars-pair :
    (u v c : ℕ) (s : Str)
    → is_high u ≡ true
    → is_low v ≡ true
    → 0x10000 + (u - 0xd800) * 1024 + (v - 0xdc00) ≡ c
    → scalars (u ∷ v ∷ s) ≡ c ∷ scalars s
unfolding scalars
scalars-pair u v c s h h' e = rw (h, h', e) refl

-- The units of scalar values are read as these values.
scalars-units : (c : ℕ) (s : Str) → IsScalar c → scalars (units c ++ s) ≡ c ∷ scalars s
unfolding units is_high is_low
scalars-units c s h = elim (Bool-cases (ltb c 0x10000)) [
  | inl e ↦ rw e (scalars-single c s (ground arith) (ground arith))
  | inr e ↦ rw e (
      scalars-pair (0xd800 + (c - 0x10000) / 1024) (0xdc00 + (c - 0x10000) % 1024) c s
        (ground arith) (ground arith) (ground arith))
]

pub scalars-units_of : (cs : List ℕ) → All IsScalar cs → scalars (units_of cs) ≡ cs
scalars-units_of [] h = unfold scalars in refl
scalars-units_of (c ∷ cs) h =
    scalars-units c (units_of cs) h.0 ∙ ap (λ ds. c ∷ ds) (scalars-units_of cs h.1)

-- A text in which every surrogate has its other half.
abbrev pub IsWellFormed : Str → Type 0
IsWellFormed s = units_of (scalars s) ≡ s
