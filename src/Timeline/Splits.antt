-- ===== src/Timeline/Splits.antt =====
-- Where the last entry of a page stands in the list that the page is taken from.
use tracegarden.Prelude.{
  ℕ, zero, suc, ◌≤◌, ◌<◌, ◌≡◌, refl, ap, true, false, some, List, [], ◌∷◌, ◌++◌, arith, ltb, length,
  take, drop, Str,
}
use tracegarden.Timeline.Pages.{last_of}

module _ {A : Type 0} where
  pub take_whole : (n : ℕ) (xs : List A) → ltb n (length xs) ≡ false → take n xs ≡ xs
  take_whole zero [] h = refl
  take_whole zero (x ∷ xs) h = absurd (ground (arith, h))
  take_whole (suc n) [] h = refl
  take_whole (suc n) (x ∷ xs) h = ap (λ r. x ∷ r) (take_whole n xs (ground (arith, h)))

  pub drop_whole : (n : ℕ) (xs : List A) → ltb n (length xs) ≡ false → drop n xs ≡ []
  drop_whole zero [] h = refl
  drop_whole zero (x ∷ xs) h = absurd (ground (arith, h))
  drop_whole (suc n) [] h = refl
  drop_whole (suc n) (x ∷ xs) h = drop_whole n xs (ground (arith, h))

  pub take-drop : (n : ℕ) (xs : List A) → take n xs ++ drop n xs ≡ xs
  take-drop zero xs = refl
  take-drop (suc n) [] = refl
  take-drop (suc n) (x ∷ xs) = ap (λ r. x ∷ r) (take-drop n xs)

  pub append_two :
      (front xs : List A) (last : A) (rest : List A)
      → (front ++ xs) ++ last ∷ rest ≡ front ++ (xs ++ last ∷ rest)
  append_two [] xs last rest = refl
  append_two (y ∷ front) xs last rest = ap (λ r. y ∷ r) (append_two front xs last rest)

  pub append_one :
      (xs : List A) (last : A) (rest : List A) → (xs ++ last ∷ []) ++ rest ≡ xs ++ last ∷ rest
  append_one [] last rest = refl
  append_one (x ∷ xs) last rest = ap (λ r. x ∷ r) (append_one xs last rest)

  -- A full page, up to its last element.
  pub record FullPage (n : ℕ) (rest : List A) : Type 0 where
    pub front : List A
    pub last : A
    pub behind : List A
    pub page : take n rest ≡ front ++ last ∷ []
    pub split : rest ≡ front ++ last ∷ behind
    pub ends : last_of (take n rest) ≡ some last
    pub dropped : drop n rest ≡ behind
    pub shorter : length behind < length rest

  cut_page_suc : (n : ℕ) (rest : List A) → ltb (suc n) (length rest) ≡ true → FullPage (suc n) rest
  cut_page_suc n [] h = absurd (ground (arith, h))
  cut_page_suc zero (x ∷ rest) h = record {
    front = [];
    last = x;
    behind = rest;
    page = refl;
    split = refl;
    ends = refl;
    dropped = refl;
    shorter = omega arith;
  }
  cut_page_suc (suc n) (x ∷ rest) h =
      let f = cut_page_suc n rest (ground (arith, h)) in
      record {
        front = x ∷ f.front;
        last = f.last;
        behind = f.behind;
        page = ap (λ r. x ∷ r) (f.page);
        split = ap (λ r. x ∷ r) (f.split);
        ends = rw (f.ends) refl;
        dropped = f.dropped;
        shorter = omega (arith, f.shorter);
      }

  pub cut_page : (n : ℕ) (rest : List A) → 1 ≤ n → ltb n (length rest) ≡ true → FullPage n rest
  cut_page zero rest h l = absurd (omega (arith, h))
  cut_page (suc n) rest h l = cut_page_suc n rest l

pub append_ne : (a : Str) (c : ℕ) (b : Str) → (x : ℕ) × (r : Str) × (a ++ c ∷ b ≡ x ∷ r)
append_ne [] c b = (c, b, refl)
append_ne (x ∷ a) c b = (x, a ++ c ∷ b, refl)
