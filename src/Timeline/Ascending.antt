-- ===== src/Timeline/Ascending.antt =====
-- Sorting by a comparison, and what stands behind an element of a sorted list:
-- packages/db/src/index.ts, the sort and the filter of `pageFromEntries`.
use tracegarden.Prelude.{
  suc, ◌≡◌, refl, sym, ap, ◌∙◌, ◌↔◌, ◌⊎◌, inl, inr, Bool, true, false, ◌||◌, List, [], ◌∷◌, ◌++◌,
  Bool-cases, length, filter, All, In,
}
use tracegarden.Timeline.Pages.{insert_by, sort_by}

module _ {A : Type 0} (P : A → Type 0) (p : A → Bool) where
  pub All-filter : (xs : List A) → All P xs → All P (filter p xs)
  All-filter [] h = tt
  All-filter (x ∷ xs) h = elim (Bool-cases (p x)) [
    | inl t ↦ rw t (h.0, All-filter xs h.1)
    | inr t ↦ rw t (All-filter xs h.1)
  ]

module _ {A : Type 0} (P : A → Type 0) where
  pub All_middle : (xs : List A) (last : A) (rest : List A) → All P (xs ++ last ∷ rest) → P last
  All_middle [] last rest h = h.0
  All_middle (x ∷ xs) last rest h = All_middle xs last rest h.1

module _ {A : Type 0} (p : A → Bool) where
  filter_none : (xs : List A) → All (λ x. p x ≡ false) xs → filter p xs ≡ []
  filter_none [] h = refl
  filter_none (x ∷ xs) h = rw (h.0) (filter_none xs h.1)

  filter_whole : (xs : List A) → All (λ x. p x ≡ true) xs → filter p xs ≡ xs
  filter_whole [] h = refl
  filter_whole (x ∷ xs) h = rw (h.0) (ap (λ r. x ∷ r) (filter_whole xs h.1))

  filter-append : (xs ys : List A) → filter p (xs ++ ys) ≡ filter p xs ++ filter p ys
  filter-append [] ys = refl
  filter-append (x ∷ xs) ys = elim (Bool-cases (p x)) [
    | inl t ↦ rw t (ap (λ r. x ∷ r) (filter-append xs ys))
    | inr t ↦ rw t (filter-append xs ys)
  ]

  pub In-filter : (a : A) (xs : List A) → In a (filter p xs) ↔ (In a xs × (p a ≡ true))
  In-filter a [] = (λ m. absurd m, λ m. absurd m.0)
  In-filter a (x ∷ xs) = elim (Bool-cases (p x)) [
    | inl t ↦ rw t (
      λ m. elim m [
        | inl e ↦ (inl e, rw e t)
        | inr m' ↦ let (l, r) = (In-filter a xs).0 m' in (inr l, r)
      ],
      λ m. elim m.0 [ inl e ↦ inl e | inr m' ↦ inr ((In-filter a xs).1 (m', m.1)) ],
    )
    | inr t ↦ rw t (
      λ m. let (l, r) = (In-filter a xs).0 m in (inr l, r),
      λ m. elim m.0 [
        | inl e ↦ let bad : p x ≡ true = rw (← e) (m.1) in let no : true ≡ false = sym bad ∙ t in cc
        | inr m' ↦ (In-filter a xs).1 (m', m.1)
      ],
    )
  ]

module _ {A : Type 0} (after : A → A → Bool) where
  -- Each element is before all that follow it.
  abbrev pub IsAscending : List A → Type 0
  IsAscending [] = Unit
  IsAscending (x ∷ xs) = All (λ y. after y x ≡ true) xs × IsAscending xs

  -- Of two elements one is before the other.
  abbrev pub AreRanked : List A → Type 0
  AreRanked [] = Unit
  AreRanked (x ∷ xs) = All (λ y. (after x y || after y x) ≡ true) xs × AreRanked xs

  pub AreRanked-filter : (p : A → Bool) (xs : List A) → AreRanked xs → AreRanked (filter p xs)
  AreRanked-filter p [] h = tt
  AreRanked-filter p (x ∷ xs) h = elim (Bool-cases (p x)) [
    | inl t ↦ rw t (All-filter _ p xs h.0, AreRanked-filter p xs h.1)
    | inr t ↦ rw t (AreRanked-filter p xs h.1)
  ]

  pub All-insert_by :
      (P : A → Type 0) (x : A) (xs : List A) → P x → All P xs → All P (insert_by after x xs)
  unfolding insert_by
  All-insert_by P x [] q h = (q, tt)
  All-insert_by P x (y ∷ ys) q h = elim (Bool-cases (after x y)) [
    | inl t ↦ rw t (h.0, All-insert_by P x ys q h.1)
    | inr t ↦ rw t (q, h)
  ]

  pub All-sort_by : (P : A → Type 0) (xs : List A) → All P xs → All P (sort_by after xs)
  unfolding sort_by
  All-sort_by P [] h = tt
  All-sort_by P (x ∷ xs) h = All-insert_by P x (sort_by after xs) h.0 (All-sort_by P xs h.1)

  In-insert_by : (a x : A) (xs : List A) → In a (insert_by after x xs) ↔ ((a ≡ x) ⊎ In a xs)
  unfolding insert_by
  In-insert_by a x [] = (λ m. m, λ m. m)
  In-insert_by a x (y ∷ ys) = elim (Bool-cases (after x y)) [
    | inr t ↦ rw t (λ m. m, λ m. m)
    | inl t ↦ rw t (
      λ m. elim m [
        | inl e ↦ inr (inl e)
        | inr m' ↦ elim ((In-insert_by a x ys).0 m') [ inl e ↦ inl e | inr m'' ↦ inr (inr m'') ]
      ],
      λ m. elim m [
        | inl e ↦ inr ((In-insert_by a x ys).1 (inl e))
        | inr m' ↦ elim m' [ inl e ↦ inl e | inr m'' ↦ inr ((In-insert_by a x ys).1 (inr m'')) ]
      ],
    )
  ]

  pub In-sort_by : (a : A) (xs : List A) → In a (sort_by after xs) ↔ In a xs
  unfolding sort_by
  In-sort_by a [] = (λ m. m, λ m. m)
  In-sort_by a (x ∷ xs) =
      let (there, back) = In-insert_by a x (sort_by after xs) in
      (
        λ m. elim (there m) [ inl e ↦ inl e | inr m' ↦ inr ((In-sort_by a xs).0 m') ],
        λ m. elim m [ inl e ↦ back (inl e) | inr m' ↦ back (inr ((In-sort_by a xs).1 m')) ],
      )

  length-insert_by : (x : A) (xs : List A) → length (insert_by after x xs) ≡ suc (length xs)
  unfolding insert_by
  length-insert_by x [] = refl
  length-insert_by x (y ∷ ys) = elim (Bool-cases (after x y)) [
    | inl t ↦ rw t (ap suc (length-insert_by x ys))
    | inr t ↦ rw t refl
  ]

  pub length-sort_by : (xs : List A) → length (sort_by after xs) ≡ length xs
  unfolding sort_by
  length-sort_by [] = refl
  length-sort_by (x ∷ xs) = length-insert_by x (sort_by after xs) ∙ ap suc (length-sort_by xs)

  -- The laws of a strict order, on the elements that the predicate holds of.
  pub record IsStrict (P : A → Type 0) : Type 0 where
    pub irreflexive : (x : A) → P x → after x x ≡ false
    pub asymmetric : (x y : A) → P x → P y → after x y ≡ true → after y x ≡ false
    pub transitive :
        (x y z : A) → P x → P y → P z → after x y ≡ true → after y z ≡ true → after x z ≡ true

  module _ (P : A → Type 0) (s : IsStrict P) where
    behind_both :
        (x y : A) (ys : List A)
        → P x
        → P y
        → All P ys
        → after y x ≡ true
        → All (λ z. after z y ≡ true) ys
        → All (λ z. after z x ≡ true) ys
    behind_both x y [] px py ps h hs = tt
    behind_both x y (z ∷ ys) px py ps h hs =
        (s.transitive z y x ps.0 py px hs.0 h, behind_both x y ys px py ps.1 h hs.1)

    insert_by-IsAscending :
        (x : A) (xs : List A)
        → P x
        → All P xs
        → All (λ y. (after x y || after y x) ≡ true) xs
        → IsAscending xs
        → IsAscending (insert_by after x xs)
    unfolding insert_by
    insert_by-IsAscending x [] px ps r h = (tt, tt)
    insert_by-IsAscending x (y ∷ ys) px ps r h = elim (Bool-cases (after x y)) [
      | inl t ↦ rw t (All-insert_by _ x ys t h.0, insert_by-IsAscending x ys px ps.1 r.1 h.1)
      | inr t ↦
          let behind : after y x ≡ true = rw t at r.0 in
          rw t ((behind, behind_both x y ys px ps.0 ps.1 behind h.0), h)
    ]

    pub sort_by-IsAscending :
        (xs : List A) → All P xs → AreRanked xs → IsAscending (sort_by after xs)
    unfolding sort_by
    sort_by-IsAscending [] ps r = tt
    sort_by-IsAscending (x ∷ xs) ps r =
        insert_by-IsAscending x (sort_by after xs) ps.0 (All-sort_by P xs ps.1)
          (All-sort_by _ xs r.0) (sort_by-IsAscending xs ps.1 r.1)

    before_last :
        (last : A) (xs rest : List A)
        → All P (xs ++ last ∷ rest)
        → IsAscending (xs ++ last ∷ rest)
        → All (λ x. after x last ≡ false) xs
    before_last last [] rest ps h = tt
    before_last last (x ∷ xs) rest ps h = (
      s.asymmetric last x (All_middle P xs last rest ps.1) ps.0 (All_middle _ xs last rest h.0),
      before_last last xs rest ps.1 h.1,
    )

    ascending_end :
        (last : A) (xs rest : List A)
        → IsAscending (xs ++ last ∷ rest)
        → All (λ x. after x last ≡ true) rest
    ascending_end last [] rest h = h.0
    ascending_end last (x ∷ xs) rest h = ascending_end last xs rest h.1

    -- What is behind an element of a sorted list is the rest of the list.
    pub filter_behind :
        (last : A) (xs rest : List A)
        → All P (xs ++ last ∷ rest)
        → IsAscending (xs ++ last ∷ rest)
        → filter (λ x. after x last) (xs ++ last ∷ rest) ≡ rest
    filter_behind last xs rest ps h =
        let q = λ (x : A). after x last in
        rw
          (
            filter-append q xs (last ∷ rest),
            filter_none q xs (before_last last xs rest ps h),
            s.irreflexive last (All_middle P xs last rest ps),
          )
          (filter_whole q rest (ascending_end last xs rest h))
