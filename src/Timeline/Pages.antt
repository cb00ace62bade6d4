-- ===== src/Timeline/Pages.antt =====
-- Pages of the timeline: packages/db/src/index.ts, `pageFromEntries`, `listTimelineEntries` and
-- `countTimelineEntriesAfterCursor`.
use tracegarden.Prelude.{
  ℕ, zero, suc, ◌+◌, Bool, true, false, not, ◌&&◌, ◌||◌, Option, none, some, List, [], ◌∷◌, map,
  ltb, if◌then◌else◌, is_some, or_else, length, take, filter, Str, ◌===◌,
}
use tracegarden.Prelude.Dates.{Dates}
use tracegarden.Prelude.Dict.{Dict, values}
use tracegarden.Prelude.Result.{Result, ok, err, ◌>>=◌}
use tracegarden.Prelude.Value.{decimal}
use tracegarden.Cluster.{is_greater}
use tracegarden.Timeline.Records.{Store, Entry, observed, experiment, ConfirmedLink}
use tracegarden.Timeline.Reviews.{has_review, review_key, unread_attention_count}
use tracegarden.Timeline.Queries.{
  TimelineQuery, ListedEntry, entry_matches_query, compare_timeline_positions,
}
use tracegarden.Timeline.Cursors.{
  Platform, QueryError, member_required, more_pages, DecodedCursor, history, live,
  encode_timeline_cursor, encode_live_timeline_cursor, decode_timeline_cursor,
}

-- A stable sort by a comparison, of which `after x y` says that `x` belongs behind `y`.
module _ {A : Type 0} (after : A → A → Bool) where
  unfoldable pub insert_by : A → List A → List A
  insert_by x [] = x ∷ []
  insert_by x (y ∷ ys) = let rest = insert_by x ys in if after x y then y ∷ rest else x ∷ y ∷ ys

  unfoldable pub sort_by : List A → List A
  unfolding insert_by
  sort_by [] = []
  sort_by (x ∷ xs) = insert_by x (sort_by xs)

-- The last element, for a list that has one.
abbrev pub last_of : {A : Type 0} → List A → Option A
last_of [] = none
last_of (x ∷ xs) = or_else (last_of xs) (some x)

pub record TimelinePage : Type 0 where
  pub entries : List ListedEntry
  pub next_cursor : Option Str
  pub resume_cursor : Option Str
  pub unread_attention_count : Option ℕ

abbrev pub is_live : Option DecodedCursor → Bool
is_live (some (live sequence)) = true
is_live _ = false

-- `compareTimelineSequences(left, right) > 0`.
abbrev pub after_sequence : ListedEntry → ListedEntry → Bool
after_sequence x y = ltb y.entry.sequence x.entry.sequence

module _ (d : Dates) where
  -- `compareTimelinePositions(left, right) > 0`.
  abbrev pub is_after : Str → Str → ListedEntry → Bool
  is_after time id x =
      is_greater (compare_timeline_positions d x.entry.occurred_at x.entry.id time id)

  abbrev pub after_position : ListedEntry → ListedEntry → Bool
  after_position x y = is_after y.entry.occurred_at y.entry.id x

abbrev pub matching : TimelineQuery → List ListedEntry → List ListedEntry
matching q entries = filter (λ x. entry_matches_query q x.entry) entries

module _ (p : Platform) (d : Dates) (secret : Str) (q : TimelineQuery)
    (member_id : Option Str) where
  abbrev pub sorted_for : Option DecodedCursor → List ListedEntry → List ListedEntry
  sorted_for (some (live sequence)) entries = sort_by after_sequence entries
  sorted_for _ entries = sort_by (after_position d) entries

  abbrev pub after_cursor : Option DecodedCursor → List ListedEntry → List ListedEntry
  after_cursor none entries = entries
  after_cursor (some (live sequence)) entries =
      filter (λ x. ltb (decimal sequence) x.entry.sequence) entries
  after_cursor (some (history time id)) entries = filter (is_after d time id) entries

  -- The cursor behind the last entry of a page.
  abbrev pub next_after : Option DecodedCursor → Option ListedEntry → Option Str
  next_after cursor none = none
  next_after cursor (some e) = some (
      if is_live cursor
      then encode_live_timeline_cursor p e.entry.sequence q secret member_id
      else encode_timeline_cursor p e q secret member_id)

  -- `pageFromEntries`, once the cursor is decoded and the entries behind it are known.
  unfoldable pub page_behind : Option DecodedCursor → List ListedEntry → ℕ → TimelinePage
  unfolding encode_timeline_cursor encode_live_timeline_cursor
  page_behind cursor rest current =
      let page = take q.limit rest in
      record {
        entries = page;
        next_cursor = if ltb q.limit (length rest) then next_after cursor (last_of page) else none;
        resume_cursor =
            if is_some member_id && is_some (last_of page)
            then some (encode_live_timeline_cursor p current q secret member_id)
            else none;
        unread_attention_count = none;
      }

  -- `query.cursor ? decode… : null`.
  abbrev pub given_cursor : Option Str → Result QueryError (Option DecodedCursor)
  given_cursor none = ok none
  given_cursor (some []) = ok none
  given_cursor (some (c ∷ text)) = do
    cursor ← decode_timeline_cursor p d (c ∷ text) q secret member_id
    ok (some cursor)

  unfoldable pub page_from_entries : List ListedEntry → ℕ → Result QueryError TimelinePage
  unfolding decode_timeline_cursor entry_matches_query sort_by compare_timeline_positions
      page_behind
  page_from_entries entries current = do
    cursor ← given_cursor q.cursor
    ok (page_behind cursor (after_cursor cursor (sorted_for cursor (matching q entries))) current)

-- `entryWithLinks`.
unfoldable pub entry_with_links : Dict ConfirmedLink → Entry → ListedEntry
unfolding ◌===◌
entry_with_links links e = record {
  entry = e;
  confirmed_links =
      filter (λ l. l.left_entry_id === e.id || l.right_entry_id === e.id) (values links);
}

abbrev is_unread_by : Option Str → Store → Str → Bool → Bool
is_unread_by none s id attention = false
is_unread_by (some member_id) s id attention =
    attention && not (has_review (review_key id member_id) s.reviews)

-- An entry as a member sees it.
unfoldable pub seen_by : Option Str → Store → Entry → Entry
unfolding review_key ◌===◌
seen_by member_id s e = elim e.content [
  | experiment x ↦ e
  | observed x ↦ record e {
    content =
        observed (record x { attention_unread = is_unread_by member_id s e.id x.attention_item });
  }
]

unfoldable pub listed_entries : Str → Option Str → Store → List ListedEntry
unfolding entry_with_links seen_by
listed_entries workspace member_id s =
    map (λ e. entry_with_links s.links (seen_by member_id s e))
      (filter (λ e. e.workspace_id === workspace) (values s.entries))

-- `memberId ? … : …`.
abbrev pub unread_for : Str → Option Str → Store → Option ℕ
unread_for workspace none s = none
unread_for workspace (some []) s = none
unread_for workspace (some (c ∷ m)) s = some (unread_attention_count workspace (c ∷ m) s)

abbrev pub at_cursor : TimelineQuery → Str → TimelineQuery
at_cursor q cursor = record q { cursor = some cursor }

module _ (p : Platform) (d : Dates) (secret : Str) (workspace : Str) (member_id : Option Str)
    (s : Store) where
  unfoldable pub list_timeline_entries : TimelineQuery → Result QueryError TimelinePage
  unfolding page_from_entries listed_entries unread_attention_count
  list_timeline_entries q =
      if is_some q.unread && not (is_some member_id) then err member_required else do
        page ←
            page_from_entries p d secret q member_id (listed_entries workspace member_id s)
              s.next_sequence
        ok (record page { unread_attention_count = unread_for workspace member_id s })

  -- The loop of `countTimelineEntriesAfterCursor`, on the fuel of a number of pages.
  unfoldable pub count_from : ℕ → TimelineQuery → ℕ → Option Str → Result QueryError ℕ
  unfolding list_timeline_entries
  count_from fuel q count none = ok count
  count_from fuel q count (some []) = ok count
  count_from zero q count (some (c ∷ cursor)) = err more_pages
  count_from (suc fuel) q count (some (c ∷ cursor)) = do
    page ← list_timeline_entries (at_cursor q (c ∷ cursor))
    count_from fuel q (count + length page.entries) page.next_cursor

  unfoldable pub count_timeline_entries_after_cursor : ℕ → TimelineQuery → Result QueryError ℕ
  unfolding count_from
  count_timeline_entries_after_cursor fuel q = do
    page ← list_timeline_entries (record q { limit = 100 })
    count_from fuel (record q { limit = 100 }) (length page.entries) page.next_cursor
