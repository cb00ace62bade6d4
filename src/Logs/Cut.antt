-- ===== src/Logs/Cut.antt =====
-- The cut of a text of bytes falls between characters: packages/logs/src/index.ts, `utf8Prefix`.
use tracegarden.Prelude.{
  ℕ, zero, suc, ◌+◌, ◌-◌, ◌/◌, ◌%◌, ◌≤◌, ◌<◌, ◌≡◌, refl, ap, ◌∙◌, subst, inl, inr, false, ◌&&◌,
  some, List, [], ◌∷◌, ◌++◌, arith, ltb, leb, if◌then◌else◌, Bool-cases, length, take, All,
  length-append,
}
use tracegarden.Logs.Boundaries.{
  Continues, continuation_byte_lem, Settled, Settled-start, prefix_end-append, prefix_end-within,
}
use tracegarden.Logs.Utf8.{encode_scalar, encode_scalars}
use tracegarden.Logs.Lines.{byte_at, continuation_byte, expected_bytes, prefix_end}
use tracegarden.Logs.Decoded.{IsScalar}

record IsSequence (u : List ℕ) : Type 0 where
  first : ℕ
  others : List ℕ
  whole : u ≡ first ∷ others
  starts : continuation_byte (some first) ≡ false
  size : expected_bytes (some first) ≡ suc (length others)
  continues : All Continues others

first_of :
    (b : ℕ) → b < 256 → (leb 0x80 b && ltb b 0xc0) ≡ false → continuation_byte (some b) ≡ false
first_of b h e = continuation_byte_lem b h ∙ e

other_of : (d : ℕ) → d < 64 → Continues (0x80 + d)
other_of d h = continuation_byte_lem (0x80 + d) (omega arith) ∙ ground arith

encode_scalar-IsSequence : (c : ℕ) → IsScalar c → IsSequence (encode_scalar c)
unfolding encode_scalar expected_bytes
encode_scalar-IsSequence c h = elim (Bool-cases (ltb c 0x80)) [
  | inl e ↦ rw e (record {
    first = c;
    others = [];
    whole = refl;
    starts = first_of c (ground arith) (ground arith);
    size = ground arith;
    continues = tt;
  })
  | inr e ↦ elim (Bool-cases (ltb c 0x800)) [
    | inl e' ↦
        rw (e, e')
          (record {
            first = 0xc0 + c / 64;
            others = (0x80 + c % 64) ∷ [];
            whole = refl;
            starts = first_of (0xc0 + c / 64) (ground arith) (ground arith);
            size = ground arith;
            continues = (other_of (c % 64) (omega arith), tt);
          })
    | inr e' ↦ elim (Bool-cases (ltb c 0x10000)) [
      | inl e'' ↦
          rw (e, e', e'')
            (record {
              first = 0xe0 + c / 4096;
              others = (0x80 + c / 64 % 64) ∷ (0x80 + c % 64) ∷ [];
              whole = refl;
              starts = first_of (0xe0 + c / 4096) (ground arith) (ground arith);
              size = ground arith;
              continues =
                  (other_of (c / 64 % 64) (omega arith), (other_of (c % 64) (omega arith), tt));
            })
      | inr e'' ↦
          rw (e, e', e'')
            (record {
              first = 0xf0 + c / 262144;
              others = (0x80 + c / 4096 % 64) ∷ (0x80 + c / 64 % 64) ∷ (0x80 + c % 64) ∷ [];
              whole = refl;
              starts = first_of (0xf0 + c / 262144) (ground arith) (ground arith);
              size = ground arith;
              continues = (
                other_of (c / 4096 % 64) (omega arith),
                (other_of (c / 64 % 64) (omega arith), (other_of (c % 64) (omega arith), tt)),
              );
            })
    ]
  ]
]

-- The longest beginning of some scalar values whose bytes are at most so many.
abbrev pub fitting : ℕ → List ℕ → List ℕ
fitting n [] = []
fitting n (c ∷ cs) =
    let rest = fitting (n - length (encode_scalar c)) cs in
    if leb (length (encode_scalar c)) n then c ∷ rest else []

starts-encode_scalars :
    (cs : List ℕ) → All IsScalar cs → continuation_byte (byte_at (encode_scalars cs) 0) ≡ false
starts-encode_scalars [] h = unfold byte_at continuation_byte in refl
starts-encode_scalars (c ∷ cs) h =
    let q = encode_scalar-IsSequence c h.0 in rw (q.whole) (unfold byte_at in q.starts)

take-append_all {ℓ} :
    {A : Type ℓ} (xs ys : List A) (n : ℕ) → take (length xs + n) (xs ++ ys) ≡ xs ++ take n ys
take-append_all [] ys n = let e : 0 + n ≡ n = omega arith in rw e refl
take-append_all (x ∷ xs) ys n =
    let e : suc (length xs) + n ≡ suc (length xs + n) = omega arith in
    rw (e, take-append_all xs ys n) refl

take-nil : (k : ℕ) (xs : List ℕ) → xs ≡ [] → take k xs ≡ []
take-nil zero xs e = refl
take-nil (suc k) xs e = rw e refl

take-prefix_end-append :
    (u rest : List ℕ) (m : ℕ)
    → Settled rest m
    → take (prefix_end (u ++ rest) (length u + m)) (u ++ rest) ≡ u ++ take (prefix_end rest m) rest
take-prefix_end-append u rest m s =
    rw ((prefix_end-append u rest m s).1) (take-append_all u rest (prefix_end rest m))

too_long-prefix_end :
    (u rest : List ℕ) (n : ℕ)
    → IsSequence u
    → leb (length u) n ≡ false
    → prefix_end (u ++ rest) n ≡ 0
too_long-prefix_end u rest n q h =
    let size = ap length q.whole in
    rw (q.whole)
      (prefix_end-within q.first q.others rest n q.starts q.size q.continues (ground arith))

-- What is kept of the bytes of a text is the bytes of the longest beginning that fits.
pub take-prefix_end :
    (cs : List ℕ) (n : ℕ)
    → All IsScalar cs
    → take (prefix_end (encode_scalars cs) n) (encode_scalars cs) ≡ encode_scalars (fitting n cs)
take-prefix_end [] n h = take-nil (prefix_end [] n) [] refl
take-prefix_end (c ∷ cs) n h = elim (Bool-cases (leb (length (encode_scalar c)) n)) [
  | inl fits ↦
      let u = encode_scalar c in
      let rest = encode_scalars cs in
      let m = n - length u in
      let split : length u + m ≡ n = ground arith in
      let cut =
        take-prefix_end-append u rest m (Settled-start rest m (starts-encode_scalars cs h.1))
        ∙ ap (λ bytes. u ++ bytes) (take-prefix_end cs m h.1) in
      rw fits (
        subst
          (λ k. take (prefix_end (u ++ rest) k) (u ++ rest) ≡ u ++ encode_scalars (fitting m cs))
          split cut)
  | inr too_long ↦
      rw
        (
          too_long,
          too_long-prefix_end (encode_scalar c) (encode_scalars cs) n
              (encode_scalar-IsSequence c h.0) too_long,
        )
        refl
]

pub length-fitting : (n : ℕ) (cs : List ℕ) → length (encode_scalars (fitting n cs)) ≤ n
length-fitting n [] = omega arith
length-fitting n (c ∷ cs) = elim (Bool-cases (leb (length (encode_scalar c)) n)) [
  | inl fits ↦ rw fits (
      let size =
        length-append (encode_scalar c)
          (encode_scalars (fitting (n - length (encode_scalar c)) cs)) in
      let ih = length-fitting (n - length (encode_scalar c)) cs in ground arith)
  | inr too_long ↦ rw too_long (omega arith)
]

-- What does not fit.
pub left_over : ℕ → List ℕ → List ℕ
left_over n [] = []
left_over n (c ∷ cs) =
    let rest = left_over (n - length (encode_scalar c)) cs in
    if leb (length (encode_scalar c)) n then rest else c ∷ cs

pub fitting-left_over : (n : ℕ) (cs : List ℕ) → fitting n cs ++ left_over n cs ≡ cs
unfolding left_over
fitting-left_over n [] = refl
fitting-left_over n (c ∷ cs) = ground (arith, fitting-left_over (n - length (encode_scalar c)) cs)
