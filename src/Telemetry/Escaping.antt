-- ===== src/Telemetry/Escaping.antt =====
-- Escaped label values can be read back: packages/telemetry/src/index.ts, `prometheusLabelValue`.
use tracegarden.Prelude.{
  ℕ, ◌≡◌, refl, inl, inr, false, Option, none, some, [], ◌∷◌, ◌++◌, ◌==◌, if◌then◌else◌, ==_iff,
  Bool-cases, Str,
}
use tracegarden.Telemetry.Names.{replace_all, prometheus_label_value}
use mathlib.Core.Option

-- A quoted label value as the text format reads it, up to the closing quote.
unfoldable pub read_quoted : Str → Option (Str × Str)
read_quoted [] = none
read_quoted (c ∷ []) = if c == b'"' then some ([], []) else none
read_quoted (c ∷ d ∷ s) =
    let escaped = Option.map (λ p. ((if d == b'n' then 10 else d) ∷ p.0, p.1)) (read_quoted s) in
    let plain = Option.map (λ p. (c ∷ p.0, p.1)) (read_quoted (d ∷ s)) in
    if c == b'"'
    then some ([], d ∷ s)
    else if c == b'\\'
    then escaped
    else if c == 10
    then none
    else plain

read_plain :
    (c : ℕ) (s v rest : Str)
    → (c == b'"') ≡ false
    → (c == b'\\') ≡ false
    → (c == 10) ≡ false
    → read_quoted s ≡ some (v, rest)
    → read_quoted (c ∷ s) ≡ some (c ∷ v, rest)
unfolding read_quoted
read_plain c [] v rest h h' h'' e = cc
read_plain c (d ∷ s) v rest h h' h'' e = rw (h, h', h'', e) refl

read_escaped :
    (d : ℕ) (s v rest : Str)
    → read_quoted s ≡ some (v, rest)
    → read_quoted (b'\\' ∷ d ∷ s) ≡ some ((if d == b'n' then 10 else d) ∷ v, rest)
unfolding read_quoted
read_escaped d s v rest e = rw e refl

-- How one unit is escaped.
escape_unit : ℕ → Str
escape_unit c =
    if c == b'\\'
    then b'\\' ∷ b'\\' ∷ []
    else if c == 10
    then b'\\' ∷ b'n' ∷ []
    else if c == b'"'
    then b'\\' ∷ b'"' ∷ []
    else c ∷ []

escape_cons :
    (c : ℕ) (s : Str) → prometheus_label_value (c ∷ s) ≡ escape_unit c ++ prometheus_label_value s
unfolding prometheus_label_value replace_all escape_unit
escape_cons c s = elim (Bool-cases (c == b'\\')) [
  | inl e ↦ rw e refl
  | inr e ↦ elim (Bool-cases (c == 10)) [
    | inl e' ↦ rw (e, e') refl
    | inr e' ↦ elim (Bool-cases (c == b'"')) [
      | inl e'' ↦ rw (e, e', e'') refl
      | inr e'' ↦ rw (e, e', e'') refl
    ]
  ]
]

-- A label value, as it is written between quotes, is read back as it was, and reading stops at the
-- closing quote, whatever the value and the text behind the quote are.
pub read_quoted-prometheus_label_value :
    (value rest : Str)
    → read_quoted (prometheus_label_value value ++ b'"' ∷ rest) ≡ some (value, rest)
unfolding escape_unit
read_quoted-prometheus_label_value [] [] =
    unfold prometheus_label_value replace_all read_quoted in refl
read_quoted-prometheus_label_value [] (d ∷ s) =
    unfold prometheus_label_value replace_all read_quoted in refl
read_quoted-prometheus_label_value (c ∷ s) rest =
    let back = read_quoted-prometheus_label_value s rest in
    elim (Bool-cases (c == b'\\')) [
      | inl e ↦
          rw (escape_cons, e)
            (rw ((==_iff c b'\\').0 e)
              (read_escaped b'\\' (prometheus_label_value s ++ b'"' ∷ rest) s rest back))
      | inr e ↦ elim (Bool-cases (c == 10)) [
        | inl e' ↦
            rw (escape_cons, e, e')
              (rw ((==_iff c 10).0 e')
                (read_escaped b'n' (prometheus_label_value s ++ b'"' ∷ rest) s rest back))
        | inr e' ↦ elim (Bool-cases (c == b'"')) [
          | inl e'' ↦
              rw (escape_cons, e, e', e'')
                (rw ((==_iff c b'"').0 e'')
                  (read_escaped b'"' (prometheus_label_value s ++ b'"' ∷ rest) s rest back))
          | inr e'' ↦
              rw (escape_cons, e, e', e'')
                (read_plain c (prometheus_label_value s ++ b'"' ∷ rest) s rest e'' e e' back)
        ]
      ]
    ]
