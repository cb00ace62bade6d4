-- ===== src/Logs/Boundaries.antt =====
-- Bytes that continue a sequence, and a cut among them: packages/logs/src/index.ts, `utf8Prefix`.
use tracegarden.Prelude.{
  ℕ, zero, suc, ◌+◌, ◌-◌, ◌≤◌, ◌<◌, ◌≡◌, refl, ◌∙◌, ◌⊎◌, inl, inr, Bool, true, false, not, ◌&&◌,
  none, some, List, [], ◌∷◌, ◌++◌, arith, ltb, leb, ◌==◌, if◌then◌else◌, Bool-cases, Option-cases,
  length, All,
}
use tracegarden.Logs.Utf8.{}
use tracegarden.Logs.Lines.{byte_at, continuation_byte, find_lead, expected_bytes, prefix_end}
use Prim.Native.Nat.{bit_and}

-- A test of every number under a bound, and what it says of one of them.
holds_under : (ℕ → Bool) → ℕ → Bool
holds_under test zero = true
holds_under test (suc bound) = test bound && holds_under test bound

holds_under-at :
    (test : ℕ → Bool) (bound b : ℕ) → b < bound → holds_under test bound ≡ true → test b ≡ true
unfolding holds_under
holds_under-at test zero b lt h = absurd (omega arith)
holds_under-at test (suc bound) b lt h = ground (arith, holds_under-at test bound b)

-- The mask tells the bytes from 0x80 up to 0xbf.
same_test : Bool → Bool → Bool
same_test true b = b
same_test false b = not b

mask_table :
    holds_under (λ b. same_test (bit_and b 0xc0 == 0x80) (leb 0x80 b && ltb b 0xc0)) 256 ≡ true
unfolding holds_under same_test
mask_table = refl

same_test-eq : (a b : Bool) → same_test a b ≡ true → a ≡ b
unfolding same_test
same_test-eq true true h = refl
same_test-eq true false h = cc
same_test-eq false true h = cc
same_test-eq false false h = refl

pub continuation_byte_lem :
    (b : ℕ) → b < 256 → continuation_byte (some b) ≡ (leb 0x80 b && ltb b 0xc0)
unfolding continuation_byte
continuation_byte_lem b h = same_test-eq _ _ (
    holds_under-at (λ x. same_test (bit_and x 0xc0 == 0x80) (leb 0x80 x && ltb x 0xc0)) 256 b h
      mask_table)

-- One byte more in front moves what is found by one, or is itself what is found.
find_lead-cons :
    (b : ℕ) (bytes : List ℕ) (n : ℕ)
    → find_lead (b ∷ bytes) (suc n) ≡ elim (find_lead bytes n) [
      | none ↦ (if continuation_byte (some b) then none else some 0)
      | some lead ↦ some (suc lead)
    ]
unfolding find_lead byte_at
find_lead-cons b bytes zero = refl
find_lead-cons b bytes (suc n) = elim (Bool-cases (continuation_byte (byte_at bytes n))) [
  | inl e ↦ rw e (find_lead-cons b bytes n)
  | inr e ↦ rw e refl
]

-- The byte at the cut goes on with no sequence, or its sequence has a first byte.
unfoldable pub Settled : List ℕ → ℕ → Type 0
Settled bytes n =
    (continuation_byte (byte_at bytes n) ≡ false) ⊎ ((lead : ℕ) × (find_lead bytes n ≡ some lead))

Settled-cons : (b : ℕ) (bytes : List ℕ) (n : ℕ) → Settled bytes n → Settled (b ∷ bytes) (suc n)
unfolding Settled byte_at
Settled-cons b bytes n (inl e) = inl e
Settled-cons b bytes n (inr (lead, e)) = inr (suc lead, find_lead-cons b bytes n ∙ rw e refl)

pub Settled-start :
    (bytes : List ℕ) (n : ℕ) → continuation_byte (byte_at bytes 0) ≡ false → Settled bytes n
unfolding Settled byte_at
Settled-start bytes zero h = inl h
Settled-start [] (suc n) h = inl (unfold continuation_byte in refl)
Settled-start (b ∷ bytes) (suc n) h = elim (Option-cases (find_lead bytes n)) [
  | inl e ↦ inr (0, find_lead-cons b bytes n ∙ rw (e, h) refl)
  | inr (lead, e) ↦ inr (suc lead, find_lead-cons b bytes n ∙ rw e refl)
]

prefix_end-cons :
    (b : ℕ) (bytes : List ℕ) (n : ℕ)
    → Settled bytes n
    → prefix_end (b ∷ bytes) (suc n) ≡ suc (prefix_end bytes n)
unfolding Settled prefix_end byte_at
prefix_end-cons b bytes n (inl e) = rw e refl
prefix_end-cons b bytes n (inr (lead, e)) =
    elim (Bool-cases (continuation_byte (byte_at bytes n))) [
      | inl t ↦
          rw (t, find_lead-cons b bytes n, e)
            (let same : suc n - suc lead ≡ n - lead = omega arith in
              rw same (elim (Bool-cases (ltb (n - lead) (expected_bytes (byte_at bytes lead)))) [
                | inl p ↦ rw p refl
                | inr p ↦ rw p refl
              ]))
      | inr t ↦ rw t refl
    ]

-- A cut behind a whole number of bytes is a cut of what follows them.
pub prefix_end-append :
    (u rest : List ℕ) (n : ℕ)
    → Settled rest n
    → Settled (u ++ rest) (length u + n)
      × (prefix_end (u ++ rest) (length u + n) ≡ length u + prefix_end rest n)
prefix_end-append [] rest n s = let e : 0 + n ≡ n = omega arith in rw e (s, omega arith)
prefix_end-append (b ∷ u) rest n s =
    let (t, e) = prefix_end-append u rest n s in
    let next : suc (length u) + n ≡ suc (length u + n) = omega arith in
    rw next (
      Settled-cons b (u ++ rest) (length u + n) t,
      prefix_end-cons b (u ++ rest) (length u + n) t ∙ rw e (omega arith),
    )

-- The bytes behind the first byte of a sequence.
abbrev pub Continues : ℕ → Type 0
Continues b = continuation_byte (some b) ≡ true

byte_at-Continues :
    (bs rest : List ℕ) (m : ℕ)
    → All Continues bs
    → m < length bs
    → continuation_byte (byte_at (bs ++ rest) m) ≡ true
unfolding byte_at
byte_at-Continues [] rest m h lt = absurd (omega arith)
byte_at-Continues (b ∷ bs) rest zero h lt = h.0
byte_at-Continues (b ∷ bs) rest (suc m) h lt = byte_at-Continues bs rest m h.1 (omega arith)

find_lead-Continues :
    (bs rest : List ℕ) (m : ℕ) → All Continues bs → m ≤ length bs → find_lead (bs ++ rest) m ≡ none
unfolding find_lead
find_lead-Continues bs rest zero h le = refl
find_lead-Continues bs rest (suc m) h le =
    rw (byte_at-Continues bs rest m h (omega arith)) (find_lead-Continues bs rest m h (omega arith))

-- A cut within a character falls before it.
pub prefix_end-within :
    (b : ℕ) (bs rest : List ℕ) (n : ℕ)
    → continuation_byte (some b) ≡ false
    → expected_bytes (some b) ≡ suc (length bs)
    → All Continues bs
    → n ≤ length bs
    → prefix_end (b ∷ bs ++ rest) n ≡ 0
unfolding prefix_end byte_at
prefix_end-within b bs rest zero first size h le = rw first refl
prefix_end-within b bs rest (suc n) first size h le =
    let short : ltb (suc n - 0) (suc (length bs)) ≡ true = ground arith in
    rw
      (
        byte_at-Continues bs rest n h (omega arith),
        find_lead-cons b (bs ++ rest) n,
        find_lead-Continues bs rest n h (omega arith),
        first,
        size,
        short,
      )
      refl
