-- ===== src/Telemetry/Attributes.antt =====
-- Which attributes and labels are exported: packages/telemetry/src/index.ts,
-- `safeTelemetryAttributes` and `labelsKey`.
use tracegarden.Telemetry.Names.{safe_string}
use tracegarden.Prelude.{
  ℕ, zero, suc, ◌≤◌, ◌≡◌, refl, sym, ap, ◌∙◌, inl, inr, Bool, true, false, not, ◌&&◌, Option, none,
  some, [], ◌∷◌, ◌++◌, arith, ltb, if◌then◌else◌, Bool-cases, Option-cases, or_else, length, take,
  Str, ◌===◌, ===_iff, append_assoc,
}
use tracegarden.Prelude.Dict.{Dict, get, get-set, KeysDistinct}
use tracegarden.Telemetry.Names.{is_attribute_name, unsafe_name}
use tracegarden.Telemetry.Signals.{Host, Unknown, Scalar}
use tracegarden.Telemetry.Labels.{
  safe_attribute, safe_scalar, safe_attributes_from, safe_telemetry_attributes, sort_entries,
  insert_entry, labels_key,
}
use tracegarden.Telemetry.Exportable.{IsExportable, exportable_lem}

or_else-none {ℓ} : {A : Type ℓ} (o : Option A) → or_else o none ≡ o
or_else-none none = refl
or_else-none (some a) = refl

and_left : (a b : Bool) → (a && not b) ≡ true → a ≡ true
and_left a b h = ground (arith, h)

and_not : (a b : Bool) → (a && not b) ≡ true → b ≡ false
and_not a b h = ground (arith, h)

take_short : (n : ℕ) (s : Str) → length s ≤ n → s ≡ take n s
take_short zero [] h = refl
take_short zero (c ∷ s) h = absurd (omega (arith, h))
take_short (suc n) [] h = refl
take_short (suc n) (c ∷ s) h = ap (λ r. c ∷ r) (take_short n s (omega (arith, h)))

safe_string-take : (s : Str) → safe_string s ≡ take 256 s
unfolding safe_string
safe_string-take s = elim (Bool-cases (ltb 256 (length s))) [
  | inl t ↦ rw t refl
  | inr t ↦ rw t (take_short 256 s (ground (arith, t)))
]

module _ {Num : Type 0} (host : Host Num) where
  -- What is exported of a value: finite numbers, and of a text the first 256 units.
  abbrev pub scalar_of : Unknown Num → Option (Scalar Num)
  scalar_of (Unknown.text s) = some (Scalar.text (take 256 s))
  scalar_of (Unknown.number n) = if host.is_finite n then some (Scalar.number n) else none
  scalar_of (Unknown.boolean b) = some (Scalar.boolean b)
  scalar_of Unknown.null = some Scalar.null
  scalar_of Unknown.other = none

  safe_scalar-scalar_of : (value : Unknown Num) → safe_scalar host value ≡ scalar_of value
  unfolding safe_scalar
  safe_scalar-scalar_of (Unknown.text s) = ap (λ t. some (Scalar.text t)) (safe_string-take s)
  safe_scalar-scalar_of (Unknown.number n) = refl
  safe_scalar-scalar_of (Unknown.boolean b) = refl
  safe_scalar-scalar_of Unknown.null = refl
  safe_scalar-scalar_of Unknown.other = refl

  -- What is exported under a key.
  abbrev pub exported_as : Str → Dict (Unknown Num) → Option (Scalar Num)
  exported_as key input =
      if is_attribute_name key && not (unsafe_name key)
      then elim (get key input) [ none ↦ none | some value ↦ scalar_of value ]
      else none

  get-safe_attribute :
      (key k : Str) (value : Unknown Num) (safe : Dict (Scalar Num))
      → get key (safe_attribute host k value safe) ≡ (
          if k === key
          then or_else
              (if is_attribute_name k && not (unsafe_name k) then scalar_of value else none)
              (get key safe)
          else get key safe)
  get-safe_attribute key k value safe =
      rw (← safe_scalar-scalar_of value) (elim (Option-cases (safe_scalar host value)) [
        | inl e ↦ ground arith
        | inr (scalar, e) ↦ ground (arith, get-set k key scalar safe)
      ])

  get-safe_attributes_from :
      (key : Str) (input : Dict (Unknown Num)) (safe : Dict (Scalar Num))
      → KeysDistinct input
      → get key (safe_attributes_from host input safe)
        ≡ or_else (exported_as key input) (get key safe)
  unfolding safe_attributes_from get
  get-safe_attributes_from key [] safe d = ground arith
  get-safe_attributes_from key ((k, v) ∷ input) safe d =
      get-safe_attributes_from key input (safe_attribute host k v safe) d.1
      ∙ elim (Bool-cases (k === key)) [
        | inl e ↦
            let same = (===_iff k key).0 e in
            let absent : get key input ≡ none = rw same at d.0 in
            rw (get-safe_attribute, e) (rw (same, absent) (ground arith))
        | inr e ↦ rw (get-safe_attribute, e) refl
      ]

  exported_as-IsExportable :
      (key : Str) (input : Dict (Unknown Num)) (value : Scalar Num)
      → exported_as key input ≡ some value
      → IsExportable key
  exported_as-IsExportable key input value h =
      elim (Bool-cases (is_attribute_name key && not (unsafe_name key))) [
        | inr t ↦ let bad : none ≡ some value = rw t at h in cc
        | inl t ↦ exportable_lem key (and_left _ _ t) (and_not _ _ t)
      ]

  -- Of an object with distinct keys, exactly the entries with a well-formed name that shows no
  -- protected content are exported, each as its scalar: of a text the first 256 units, of numbers the
  -- finite ones. What is exported has a key of at most 64 units, which are letters, digits, underscores,
  -- points and dashes, that, in small letters, has none of the words of protected content in it and is
  -- neither `error` nor `note`.
  pub get-safe_telemetry_attributes :
      (key : Str) (input : Dict (Unknown Num))
      → KeysDistinct input
      → (get key (safe_telemetry_attributes host (some input)) ≡ exported_as key input)
        × ((value : Scalar Num)
            → get key (safe_telemetry_attributes host (some input)) ≡ some value
            → IsExportable key)
  unfolding safe_telemetry_attributes get
  get-safe_telemetry_attributes key input d =
      let same : get key (safe_telemetry_attributes host (some input)) ≡ exported_as key input =
        get-safe_attributes_from key input [] d ∙ or_else-none (exported_as key input) in
      (same, λ value h. exported_as-IsExportable key input value (sym same ∙ h))

  -- Two sets of labels share one key, and so one series: a value with a comma and an equals sign is
  -- read as a second label.
  pub labels_key_collision :
      (a v b w : Str)
      → host.sorts_after a b ≡ false
      → labels_key host ((a, v ++ b',' ∷ b ++ b'=' ∷ w) ∷ [])
        ≡ labels_key host ((a, v) ∷ (b, w) ∷ [])
  unfolding labels_key sort_entries insert_entry
  labels_key_collision a v b w e = rw e (simp append_assoc)
