-- ===== src/Telemetry/Exportable.antt =====
-- The names under which `safeTelemetryAttributes` of packages/telemetry/src/index.ts exports a value.
use tracegarden.Telemetry.Names.{starts_with, includes, normalized}
use tracegarden.Telemetry.Names.{unsafe_attribute_names}
use tracegarden.Prelude.{
  ℕ, suc, ◌≤◌, ◌≡◌, refl, sym, ◌∙◌, ◌⊎◌, inl, inr, Bool, true, false, ◌&&◌, ◌||◌, List, [], ◌∷◌,
  ◌++◌, arith, leb, ◌==◌, Bool-cases, length, any, all, All, Str, js, ◌===◌, ===_iff, In,
}
use tracegarden.Telemetry.Names.{is_attribute_name, unsafe_name}

-- The part stands in the text.
abbrev pub Contains : Str → Str → Type 0
Contains s part = (a b : Str) × (s ≡ a ++ (part ++ b))

starts_with_nil : (s : Str) → starts_with s [] ≡ true
unfolding starts_with
starts_with_nil [] = refl
starts_with_nil (c ∷ s) = refl

includes_start : (s part : Str) → starts_with s part ≡ true → includes s part ≡ true
unfolding includes
includes_start [] part h = h
includes_start (c ∷ s) part h = rw h refl

starts_with-append : (part b : Str) → starts_with (part ++ b) part ≡ true
unfolding starts_with
starts_with-append [] b = starts_with_nil b
starts_with-append (p ∷ part) b = ground (arith, starts_with-append part b)

includes-append : (a part b : Str) → includes (a ++ (part ++ b)) part ≡ true
unfolding includes
includes-append [] part b = includes_start (part ++ b) part (starts_with-append part b)
includes-append (c ∷ a) part b = ground (arith, includes-append a part b)

includes-Contains : (s part : Str) → includes s part ≡ false → ¬ Contains s part
includes-Contains s part h (a, b, e) =
    let found : includes s part ≡ true = rw e (includes-append a part b) in
    let bad : true ≡ false = sym found ∙ h in cc

same-false : (s part : Str) → (s === part) ≡ false → ¬ (part ≡ s)
same-false s part h e =
    let found : (s === part) ≡ true = (===_iff s part).1 (sym e) in
    let bad : true ≡ false = sym found ∙ h in cc

-- The words of protected content, and two names that say no such word.
abbrev pub protected_words : List Str
protected_words =
    js "body"
    ∷ js "content"
    ∷ js "payload"
    ∷ js "stack"
    ∷ js "exception"
    ∷ js "message"
    ∷ js "log"
    ∷ []

abbrev pub protected_names : List Str
protected_names = js "error" ∷ js "note" ∷ []

-- A letter, a digit, an underscore, a point or a dash.
abbrev pub IsNameUnit : ℕ → Type 0
IsNameUnit c =
    ((b'a' ≤ c) × (c ≤ b'z'))
    ⊎ (((b'A' ≤ c) × (c ≤ b'Z')) ⊎ (((b'0' ≤ c) × (c ≤ b'9')) ⊎ In c (b'_' ∷ b'.' ∷ b'-' ∷ [])))

-- A key that may be exported: of at most 64 units of a name, and in small letters it has none of the
-- words in it and is none of the names.
abbrev pub IsExportable : Str → Type 0
IsExportable key =
    (length key ≤ 64)
    × All IsNameUnit key
    × All (λ word. ¬ Contains (normalized key) word) protected_words
    × All (λ name. ¬ (normalized key ≡ name)) protected_names

both_first : (a b : Bool) → (a && b) ≡ true → a ≡ true
both_first a b h = ground (arith, h)

both_second : (a b : Bool) → (a && b) ≡ true → b ≡ true
both_second a b h = ground (arith, h)

name_bools :
    (a b : Bool) (n : ℕ) → (a && b && leb n 63) ≡ true → (a ≡ true) × (b ≡ true) × (suc n ≤ 64)
name_bools a b n h = ground (arith, h)

or_first : (a b : Bool) → (a || b) ≡ false → a ≡ false
or_first a b h = ground (arith, h)

or_second : (a b : Bool) → (a || b) ≡ false → b ≡ false
or_second a b h = ground (arith, h)

any-false : (p : Str → Bool) (a : Str) (xs : List Str) → any p xs ≡ false → In a xs → p a ≡ false
any-false p a [] h m = absurd m
any-false p a (x ∷ xs) h (inl e) = rw e (or_first (p x) (any p xs) h)
any-false p a (x ∷ xs) h (inr m) = any-false p a xs (or_second (p x) (any p xs) h) m

words_lem :
    (x a b c d e m l : Bool)
    → (x || (a || (b || (c || (d || (e || false))))) || m || l) ≡ false
    → (x ≡ false)
      × (a ≡ false)
      × (b ≡ false)
      × (c ≡ false)
      × (d ≡ false)
      × (e ≡ false)
      × (m ≡ false)
      × (l ≡ false)
words_lem x a b c d e m l h = ground (arith, h)

-- The tests of the first unit and of the others.
abbrev is_letter_unit : ℕ → Bool
is_letter_unit c = leb b'a' c && leb c b'z' || leb b'A' c && leb c b'Z'

abbrev is_other_unit : ℕ → Bool
is_other_unit c =
    leb b'a' c && leb c b'z'
    || leb b'A' c && leb c b'Z'
    || leb b'0' c && leb c b'9'
    || c == b'_'
    || c == b'.'
    || c == b'-'

letter-IsNameUnit : (c : ℕ) → is_letter_unit c ≡ true → IsNameUnit c
letter-IsNameUnit c h = elim (Bool-cases (leb b'a' c && leb c b'z')) [
  | inl t ↦ inl (ground (arith, t), ground (arith, t))
  | inr t ↦ inr (inl (ground (arith, h, t), ground (arith, h, t)))
]

other-IsNameUnit : (c : ℕ) → is_other_unit c ≡ true → IsNameUnit c
other-IsNameUnit c h = elim (Bool-cases (is_letter_unit c)) [
  | inl t ↦ letter-IsNameUnit c t
  | inr t ↦ elim (Bool-cases (leb b'0' c && leb c b'9')) [
    | inl u ↦ inr (inr (inl (ground (arith, u), ground (arith, u))))
    | inr u ↦ elim (Bool-cases (c == b'_')) [
      | inl v ↦ inr (inr (inr (inl (ground (arith, v)))))
      | inr v ↦ elim (Bool-cases (c == b'.')) [
        | inl w ↦ inr (inr (inr (inr (inl (ground (arith, w))))))
        | inr w ↦ inr (inr (inr (inr (inr (inl (ground (arith, h, t, u, v, w)))))))
      ]
    ]
  ]
]

others-IsNameUnit : (key : Str) → all is_other_unit key ≡ true → All IsNameUnit key
others-IsNameUnit [] h = tt
others-IsNameUnit (c ∷ key) h = (
  other-IsNameUnit c (both_first (is_other_unit c) (all is_other_unit key) h),
  others-IsNameUnit key (both_second (is_other_unit c) (all is_other_unit key) h),
)

name_lem : (key : Str) → is_attribute_name key ≡ true → (length key ≤ 64) × All IsNameUnit key
unfolding is_attribute_name
name_lem [] h = absurd cc
name_lem (c ∷ key) h =
    let first : Bool = is_letter_unit c in
    let others : Bool = all is_other_unit key in
    let (f, o, n) = name_bools first others (length key) h in
    (n, (letter-IsNameUnit c f, others-IsNameUnit key o))

pub exportable_lem :
    (key : Str) → is_attribute_name key ≡ true → unsafe_name key ≡ false → IsExportable key
unfolding unsafe_name
exportable_lem key n u =
    let name = normalized key in
    let (x, a, b, c, d, e, m, l) =
      words_lem (any (λ s. s === name) unsafe_attribute_names) (includes name (js "body"))
        (includes name (js "content")) (includes name (js "payload")) (includes name (js "stack"))
        (includes name (js "exception")) (includes name (js "message")) (includes name (js "log"))
        u in
    (
      (name_lem key n).0,
      (name_lem key n).1,
      (
        includes-Contains name (js "body") a,
        (
          includes-Contains name (js "content") b,
          (
            includes-Contains name (js "payload") c,
            (
              includes-Contains name (js "stack") d,
              (
                includes-Contains name (js "exception") e,
                (
                  includes-Contains name (js "message") m,
                  (includes-Contains name (js "log") l, tt),
                ),
              ),
            ),
          ),
        ),
      ),
      (
        same-false (js "error") name (
            any-false (λ s. s === name) (js "error") unsafe_attribute_names x
              (inr (inr (inr (inr (inl refl)))))),
        (
          same-false (js "note") name (
              any-false (λ s. s === name) (js "note") unsafe_attribute_names x
                (inr (inr (inr (inr (inr (inr (inr (inr (inr (inl refl))))))))))),
          tt,
        ),
      ),
    )
