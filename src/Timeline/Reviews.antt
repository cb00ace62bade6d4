-- ===== src/Timeline/Reviews.antt =====
-- `unreadAttentionCount` and `reviewAttentionItem` of packages/db/src/index.ts. The set of reviews
-- holds texts, an entry's id and a member's with a NUL between them.
use tracegarden.Prelude.{
  ℕ, Bool, false, not, ◌&&◌, Option, none, some, List, [], ◌∷◌, ◌++◌, if◌then◌else◌, length, any,
  filter, Str, ◌===◌,
}
use tracegarden.Prelude.Dict.{get, values}
use tracegarden.Timeline.Records.{observed, experiment, Entry, Store}

unfoldable pub review_key : Str → Str → Str
review_key entry_id member_id = entry_id ++ (0 ∷ member_id)

-- `attentionReviews.has(key)`.
abbrev pub has_review : Str → List Str → Bool
has_review key reviews = any (λ r. r === key) reviews

-- An observation of the workspace that is an Attention Item.
abbrev pub is_attention : Str → Entry → Bool
is_attention workspace e = elim e.content [
  | observed x ↦ e.workspace_id === workspace && x.attention_item
  | experiment x ↦ false
]

abbrev pub is_unread : Str → Str → List Str → Entry → Bool
is_unread workspace member_id reviews e =
    is_attention workspace e && not (has_review (review_key e.id member_id) reviews)

unfoldable pub unread_attention_count : Str → Str → Store → ℕ
unread_attention_count workspace member_id s =
    length (filter (is_unread workspace member_id s.reviews) (values s.entries))

pub record ReviewResult : Type 0 where
  pub entry_id : Str
  pub reviewed : Bool
  pub unread_count : ℕ

-- `attentionReviews.add(key)`.
unfoldable pub add_review : Str → List Str → List Str
add_review key reviews = if has_review key reviews then reviews else reviews ++ key ∷ []

unfoldable pub review_found : Str → Str → Str → Store → Option ReviewResult × Store
unfolding add_review
review_found workspace member_id entry_id s =
    let key = review_key entry_id member_id in
    let s' = record s { reviews = add_review key s.reviews } in
    (
      some (record {
        entry_id = entry_id;
        reviewed = not (has_review key s.reviews);
        unread_count = unread_attention_count workspace member_id s';
      }),
      s',
    )

unfoldable pub review_attention_item : Str → Str → Str → Store → Option ReviewResult × Store
unfolding review_found
review_attention_item workspace member_id entry_id s = elim (get entry_id s.entries) [
  | none ↦ (none, s)
  | some e ↦
      if is_attention workspace e then review_found workspace member_id entry_id s else (none, s)
]
