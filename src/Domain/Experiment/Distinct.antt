-- ===== src/Domain/Experiment/Distinct.antt =====
-- Lists in which no value stands twice, as the check for duplicates of the experiments decides them.
use tracegarden.Prelude.{
  ◌≡◌, ap, inl, inr, Bool, true, false, not, ◌&&◌, ◌||◌, List, [], ◌∷◌, map, arith, any, Str, ◌===◌,
  ===_iff, In,
}
use tracegarden.Prelude.Value.{no_duplicates}

-- No value stands twice.
abbrev pub IsDistinct : {A : Type 0} → List A → Type 0
IsDistinct [] = Unit
IsDistinct (x ∷ xs) = (¬ In x xs) × IsDistinct xs

true-false : (b : Bool) → b ≡ true → ¬ (b ≡ false)
true-false b t f = cc

pub or_first : (a b : Bool) → (a || b) ≡ false → a ≡ false
or_first a b h = ground (arith, h)

pub or_second : (a b : Bool) → (a || b) ≡ false → b ≡ false
or_second a b h = ground (arith, h)

not_left : (a b : Bool) → (not a && b) ≡ true → a ≡ false
not_left a b h = ground (arith, h)

not_right : (a b : Bool) → (not a && b) ≡ true → b ≡ true
not_right a b h = ground (arith, h)

pub not-false : (a : Bool) → not a ≡ false → a ≡ true
not-false a h = ground (arith, h)

any-In-false : (x : Str) (xs : List Str) → any (λ y. x === y) xs ≡ false → ¬ In x xs
any-In-false x [] h m = m
any-In-false x (y ∷ ys) h (inl e) =
    let found : (x === y) ≡ true = (===_iff x y).1 e in true-false _ found (or_first (x === y) _ h)
any-In-false x (y ∷ ys) h (inr m) = any-In-false x ys (or_second (x === y) _ h) m

pub no_duplicates-IsDistinct : (xs : List Str) → no_duplicates xs ≡ true → IsDistinct xs
unfolding no_duplicates
no_duplicates-IsDistinct [] h = tt
no_duplicates-IsDistinct (x ∷ xs) h = (
  any-In-false x xs (not_left (any (λ y. x === y) xs) (no_duplicates xs) h),
  no_duplicates-IsDistinct xs (not_right (any (λ y. x === y) xs) (no_duplicates xs) h),
)

-- Values with distinct keys are distinct.
module _ {A : Type 0} (key : A → Str) where
  In-map : (x : A) (xs : List A) → In x xs → In (key x) (map key xs)
  In-map x [] m = m
  In-map x (y ∷ ys) (inl e) = inl (ap key e)
  In-map x (y ∷ ys) (inr m) = inr (In-map x ys m)

  pub IsDistinct-map : (xs : List A) → IsDistinct (map key xs) → IsDistinct xs
  IsDistinct-map [] h = tt
  IsDistinct-map (x ∷ xs) h = (λ m. h.0 (In-map x xs m), IsDistinct-map xs h.1)
