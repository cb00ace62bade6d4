-- ===== src/Timeline/Positions.antt =====
-- The order of positions is strict where times are dates: packages/db/src/index.ts,
-- `compareTimelinePositions`.
use Prim.Native.Nat.{compare}
use tracegarden.Prelude.{
  ℕ, ◌≡◌, refl, sym, inl, inr, Bool, true, false, ◌||◌, some, List, [], ◌∷◌, arith, ltb, ◌==◌,
  if◌then◌else◌, Bool-cases, All, Str, ◌===◌, ===_iff, ltb_str,
}
use tracegarden.Prelude.Dates.{Dates}
use tracegarden.Cluster.{is_greater}
use tracegarden.Domain.Correlation.Pairs.{ltb_str_total, ltb_str_asym}
use tracegarden.Timeline.Queries.{ListedEntry, compare_text, compare_timeline_positions}
use tracegarden.Timeline.Pages.{after_position}
use tracegarden.Timeline.Ascending.{IsStrict, AreRanked}

-- `a < b` on texts is a strict order.
ltb_str_irrefl : (a : Str) → ltb_str a a ≡ false
unfolding ltb_str
ltb_str_irrefl [] = refl
ltb_str_irrefl (x ∷ a) = ground (arith, ltb_str_irrefl a)

ltb_str_trans : (a b c : Str) → ltb_str a b ≡ true → ltb_str b c ≡ true → ltb_str a c ≡ true
unfolding ltb_str
ltb_str_trans [] [] c h h' = h'
ltb_str_trans [] (y ∷ b) [] h h' = cc
ltb_str_trans [] (y ∷ b) (z ∷ c) h h' = refl
ltb_str_trans (x ∷ a) [] c h h' = cc
ltb_str_trans (x ∷ a) (y ∷ b) [] h h' = cc
ltb_str_trans (x ∷ a) (y ∷ b) (z ∷ c) h h' = ground (arith, ltb_str_trans a b c)

-- The second position is after the first.
abbrev text_after : Str → Str → Bool
text_after a b = is_greater (compare_text a b)

text_after-ltb_str : (a b : Str) → text_after a b ≡ ltb_str b a
unfolding compare_text
text_after-ltb_str a b = elim (Bool-cases (a === b)) [
  | inl t ↦ let same = (===_iff a b).0 t in rw (t, same) (sym (ltb_str_irrefl b))
  | inr t ↦ elim (Bool-cases (ltb_str a b)) [
    | inl l ↦ rw (t, l) (sym (ltb_str_asym a b l))
    | inr l ↦ rw (t, l) (sym (ltb_str_total a b t l))
  ]
]

abbrev time_after : ℕ → Str → ℕ → Str → Bool
time_after n a m b = if n == m then ltb_str b a else ltb m n

time_after_irrefl : (n : ℕ) (a : Str) → time_after n a n a ≡ false
time_after_irrefl n a = ground (arith, ltb_str_irrefl a)

time_after_asym :
    (n : ℕ) (a : Str) (m : ℕ) (b : Str) → time_after n a m b ≡ true → time_after m b n a ≡ false
time_after_asym n a m b h = ground (arith, ltb_str_asym b a)

time_after_trans :
    (n : ℕ) (a : Str) (m : ℕ) (b : Str) (k : ℕ) (c : Str)
    → time_after n a m b ≡ true
    → time_after m b k c ≡ true
    → time_after n a k c ≡ true
time_after_trans n a m b k c h h' = ground (arith, ltb_str_trans c b a)

time_after_total :
    (n : ℕ) (a : Str) (m : ℕ) (b : Str)
    → (a === b) ≡ false
    → (time_after n a m b || time_after m b n a) ≡ true
time_after_total n a m b apart = ground (arith, ltb_str_total a b apart)

-- No two entries have one id.
abbrev pub HaveDistinctIds : List ListedEntry → Type 0
HaveDistinctIds [] = Unit
HaveDistinctIds (x ∷ xs) =
    All (λ (y : ListedEntry). (x.entry.id === y.entry.id) ≡ false) xs × HaveDistinctIds xs

is_greater-compare : (n m : ℕ) → is_greater (compare n m) ≡ ltb m n
is_greater-compare n m = ground arith

module _ (d : Dates) where
  -- The time of the entry is the given date.
  abbrev pub HasTime : ListedEntry → Type 0
  HasTime x = (n : ℕ) × (d.parse x.entry.occurred_at ≡ some n)

  after_position-time :
      (x y : ListedEntry) (n m : ℕ)
      → d.parse x.entry.occurred_at ≡ some n
      → d.parse y.entry.occurred_at ≡ some m
      → after_position d x y ≡ time_after n x.entry.id m y.entry.id
  unfolding compare_timeline_positions
  after_position-time x y n m hn hm =
      rw (after_position, compare_timeline_positions, hn, hm)
        (elim (Bool-cases (n == m)) [
          | inl t ↦ rw t (text_after-ltb_str x.entry.id y.entry.id)
          | inr t ↦ rw t (is_greater-compare n m)
        ])

  pub after_position-IsStrict : IsStrict (after_position d) HasTime
  after_position-IsStrict = record {
    irreflexive = λ x (n, h). rw (after_position-time x x n n h h) (time_after_irrefl n x.entry.id);
    asymmetric = λ x y (n, hn) (m, hm) after. rw (after_position-time y x m n hm hn) (
        time_after_asym n x.entry.id m y.entry.id
          (rw (after_position-time x y n m hn hm) at after));
    transitive = λ x y z (n, hn) (m, hm) (k, hk) xy yz. rw (after_position-time x z n k hn hk) (
        time_after_trans n x.entry.id m y.entry.id k z.entry.id
          (rw (after_position-time x y n m hn hm) at xy)
          (rw (after_position-time y z m k hm hk) at yz));
  }

  -- The entries have dates, and no two of them have one id.
  abbrev pub ArePositioned : List ListedEntry → Type 0
  ArePositioned xs = All HasTime xs × HaveDistinctIds xs

  ranked_with :
      (x : ListedEntry) (xs : List ListedEntry)
      → HasTime x
      → All HasTime xs
      → All (λ y. (x.entry.id === y.entry.id) ≡ false) xs
      → All (λ y. (after_position d x y || after_position d y x) ≡ true) xs
  ranked_with x [] h hs apart = tt
  ranked_with x (y ∷ ys) (n, hn) ((m, hm), hs) (apart, aparts) = (
    rw (after_position-time x y n m hn hm, after_position-time y x m n hm hn)
        (time_after_total n x.entry.id m y.entry.id apart),
    ranked_with x ys (n, hn) hs aparts,
  )

  pub ArePositioned-AreRanked :
      (xs : List ListedEntry)
      → All HasTime xs
      → HaveDistinctIds xs
      → AreRanked (after_position d) xs
  ArePositioned-AreRanked [] h apart = tt
  ArePositioned-AreRanked (x ∷ xs) h apart =
      (ranked_with x xs h.0 h.1 apart.0, ArePositioned-AreRanked xs h.1 apart.1)
