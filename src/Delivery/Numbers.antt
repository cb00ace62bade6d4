-- ===== src/Delivery/Numbers.antt =====
-- Two previews never share a namespace.
use tracegarden.Prelude.{
  ℕ, zero, suc, ◌+◌, ◌-◌, ◌*◌, ◌/◌, ◌%◌, ◌^◌, ◌<◌, ◌≡◌, refl, sym, ap, ◌∙◌, inl, inr, true, [], ◌∷◌,
  ◌++◌, arith, ◌==◌, ==_iff, Bool-cases, Str, js,
}
use tracegarden.Prelude.Result.{ok, ok_inj}
use tracegarden.Prelude.Value.{decimal, decimal_from}
use tracegarden.Delivery.Previews.{digits_before, number_text, preview_namespace, is_preview_number}

decimal_from-digits_before :
    (fuel n : ℕ) (text : Str)
    → n < 10 ^ fuel
    → decimal_from 0 (digits_before fuel n text) ≡ decimal_from n text
unfolding digits_before decimal_from
decimal_from-digits_before zero n text h = let e : n ≡ 0 = omega (arith, h) in rw e refl
decimal_from-digits_before (suc fuel) n text h = elim (Bool-cases (n == 0)) [
  | inl e ↦ let z : n ≡ 0 = (==_iff n 0).0 e in rw (e, z) refl
  | inr e ↦
      let small : n / 10 < 10 ^ fuel = omega (arith, h) in
      let back : (n / 10) * 10 + (n % 10 + b'0' - b'0') ≡ n = omega arith in
      rw (e, decimal_from-digits_before fuel (n / 10) _ small, back) refl
]

-- The digits of a number up to 16 of them are read back as the number.
pub decimal-number_text : (n : ℕ) → n < 10 ^ 16 → decimal (number_text n) ≡ n
unfolding decimal number_text decimal_from
decimal-number_text n h = decimal_from-digits_before 16 n [] h

append_left_inj : (a b c : Str) → a ++ b ≡ a ++ c → b ≡ c
append_left_inj [] b c h = h
append_left_inj (x ∷ a) b c h = append_left_inj a b c cc

is_preview_number-lt : (n : ℕ) → is_preview_number n ≡ true → n < 10 ^ 16
is_preview_number-lt n h = ground arith

-- Two pull requests with the same preview namespace are the same: a namespace is given to one number.
pub preview_namespace_inj :
    (n m : ℕ) (namespace : Str)
    → preview_namespace n ≡ ok namespace
    → preview_namespace m ≡ ok namespace
    → n ≡ m
unfolding preview_namespace
preview_namespace_inj n m namespace h g = elim (Bool-cases (is_preview_number n)) [
  | inr e ↦ absurd cc (rw e at h)
  | inl e ↦ elim (Bool-cases (is_preview_number m)) [
    | inr f ↦ absurd cc (rw f at g)
    | inl f ↦
        let same : number_text n ≡ number_text m =
          append_left_inj (js "preview-pr-") _ _
            (ok_inj _ namespace (rw e at h) ∙ sym (ok_inj _ namespace (rw f at g))) in
        sym (decimal-number_text n (is_preview_number-lt n e))
        ∙ ap decimal same
        ∙ decimal-number_text m (is_preview_number-lt m f)
  ]
]
