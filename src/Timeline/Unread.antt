-- ===== src/Timeline/Unread.antt =====
-- How a review of an Attention Item changes the number of unread ones.
use tracegarden.Prelude.{
  ℕ, ◌+◌, ◌≡◌, refl, sym, ap, ◌∙◌, inl, inr, Bool, true, false, not, ◌&&◌, ◌||◌, some, List, [],
  ◌∷◌, ◌++◌, arith, Bool-cases, Option-cases, length, filter, length-append, Str, ◌===◌, ===_iff,
  ===_refl,
}
use tracegarden.Prelude.Dict.{Dict, get, values}
use tracegarden.Timeline.Records.{Entry, Store}
use tracegarden.Timeline.Keyed.{Keyed-get, Keyed, passes}
use tracegarden.Timeline.Reviews.{
  review_key, has_review, is_attention, is_unread, unread_attention_count, add_review, review_found,
  review_attention_item, ReviewResult,
}

pub has_review-add :
    (key j : Str) (reviews : List Str)
    → has_review j (add_review key reviews) ≡ (key === j || has_review j reviews)
unfolding add_review
has_review-add key j reviews = elim (Bool-cases (has_review key reviews)) [
  | inl t ↦ rw t (ground (arith, known key j reviews t))
  | inr t ↦ rw t (at_end key j reviews)
]
  where
    known :
        (key j : Str) (reviews : List Str)
        → has_review key reviews ≡ true
        → key === j ≡ true
        → has_review j reviews ≡ true
    known key j [] h e = absurd cc
    known key j (r ∷ reviews) h e =
        ground (arith, known key j reviews, ===_iff key j, ===_iff r key, ===_iff r j)

    at_end :
        (key j : Str) (reviews : List Str)
        → has_review j (reviews ++ key ∷ []) ≡ (key === j || has_review j reviews)
    at_end key j [] = ground arith
    at_end key j (r ∷ reviews) = ground (arith, at_end key j reviews)

-- Texts with the same end differ before it.
suffix_inj : (a b c : Str) → a ++ c ≡ b ++ c → a ≡ b
suffix_inj [] [] c h = refl
suffix_inj [] (y ∷ b) c h = absurd (ground (arith, ap length h, length-append b c))
suffix_inj (x ∷ a) [] c h = absurd (ground (arith, ap length h, length-append a c))
suffix_inj (x ∷ a) (y ∷ b) c h =
    let e : a ++ c ≡ b ++ c = cc in let q : x ≡ y = cc in rw (q, suffix_inj a b c e) refl

review_key_other : (a b m : Str) → a === b ≡ false → review_key a m === review_key b m ≡ false
unfolding review_key
review_key_other a b m h = elim (Bool-cases (review_key a m === review_key b m)) [
  | inr e ↦ e
  | inl e ↦ absurd (
      let same = suffix_inj a b (0 ∷ m) ((===_iff (review_key a m) (review_key b m)).0 e) in
      ground (arith, ===_iff a b, same, h))
]

is_unread-add :
    (workspace member_id id : Str) (reviews : List Str) (e : Entry)
    → is_unread workspace member_id (add_review (review_key id member_id) reviews) e
      ≡ (is_unread workspace member_id reviews e && not (id === e.id))
is_unread-add workspace member_id id reviews e =
    rw has_review-add (elim (Bool-cases (id === e.id)) [
      | inl t ↦ rw (t, (===_iff id e.id).0 t, ===_refl (review_key e.id member_id)) (ground arith)
      | inr t ↦ rw (t, review_key_other id e.id member_id t) (ground arith)
    ])

abbrev unread_in : Str → Str → List Str → Dict Entry → ℕ
unread_in workspace member_id reviews entries =
    length (filter (is_unread workspace member_id reviews) (values entries))

abbrev pub bit : Bool → ℕ
bit true = 1
bit false = 0

-- Of entries under their ids, a review touches none but the one that it is about.
unread_in-add :
    (workspace member_id id : Str) (reviews : List Str) (m : Dict Entry)
    → Keyed m
    → unread_in workspace member_id (add_review (review_key id member_id) reviews) m
        + bit (passes (is_unread workspace member_id reviews) (get id m))
      ≡ unread_in workspace member_id reviews m
unfolding get
unread_in-add workspace member_id id reviews [] h = refl
unread_in-add workspace member_id id reviews ((k, e) ∷ m) h = rw is_unread-add (
    ground
      (arith, ===_iff k id, ===_iff id e.id, h, unread_in-add workspace member_id id reviews m h.2))

-- A review of an Attention Item of the workspace reports the number of unread items that is left, which
-- is one less if the review is the member's first of the item, and else the same, if each entry
-- stands once under its id.
pub review_attention_item-unread_attention_count :
    (workspace member_id id : Str) (s : Store) (e : Entry)
    → Keyed s.entries
    → get id s.entries ≡ some e
    → is_attention workspace e ≡ true
    → let r = review_attention_item workspace member_id id s in
      (x : ReviewResult) × (r.0 ≡ some x)
      × (unread_attention_count workspace member_id r.1 ≡ x.unread_count)
      × (x.unread_count + bit x.reviewed ≡ unread_attention_count workspace member_id s)
unfolding review_attention_item review_found unread_attention_count
review_attention_item-unread_attention_count workspace member_id id s e h g a =
    rw (g, review_attention_item, a)
      (
        _,
        refl,
        refl,
        ground (
          arith,
          unread_in-add workspace member_id id s.reviews s.entries h,
          g,
          a,
          Keyed-get id s.entries e h g,
        ),
      )

add_review_known :
    (key : Str) (reviews : List Str)
    → has_review key reviews ≡ true
    → add_review key reviews ≡ reviews
unfolding add_review
add_review_known key reviews h = rw h refl

add_review_again :
    (key : Str) (reviews : List Str)
    → add_review key (add_review key reviews) ≡ add_review key reviews
add_review_again key reviews =
    add_review_known key (add_review key reviews)
      (has_review-add key key reviews ∙ rw ===_refl refl)

-- A second review by the same member changes nothing, whether the item is there or not.
pub review_attention_item_again :
    (workspace member_id id : Str) (s : Store)
    → let s' = (review_attention_item workspace member_id id s).1 in
      (review_attention_item workspace member_id id s').1 ≡ s'
unfolding review_attention_item review_found
review_attention_item_again workspace member_id id s = elim (Option-cases (get id s.entries)) [
  | inl g ↦ unchanged (rw (g, review_attention_item) refl)
  | inr (e, g) ↦ elim (Bool-cases (is_attention workspace e)) [
    | inr a ↦ unchanged (rw (g, review_attention_item, a) refl)
    | inl a ↦
        let key = review_key id member_id in
        let s' : Store = record s { reviews = add_review key s.reviews } in
        let first : (review_attention_item workspace member_id id s).1 ≡ s' =
          rw (g, review_attention_item, a) refl in
        let second : (review_attention_item workspace member_id id s').1 ≡ s' =
          rw (g, review_attention_item, a)
            (ap (λ x. record s { reviews = x }) (add_review_again key s.reviews)) in
        ap (λ x. (review_attention_item workspace member_id id x).1) first ∙ second ∙ sym first
  ]
]
  where
    unchanged :
        (review_attention_item workspace member_id id s).1 ≡ s
        → let s' = (review_attention_item workspace member_id id s).1 in
          (review_attention_item workspace member_id id s').1 ≡ s'
    unchanged e = ap (λ x. (review_attention_item workspace member_id id x).1) e
