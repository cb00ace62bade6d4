-- ===== src/Timeline/Behind.antt =====
-- Pages that are read one after the other: packages/db/src/index.ts, `listTimelineEntries`, by one
-- who follows the cursors.
use tracegarden.Prelude.{
  ℕ, zero, suc, ◌≤◌, ◌≡◌, refl, sym, ap, ◌∙◌, subst, inl, inr, false, not, ◌&&◌, Option, none, some,
  List, [], ◌∷◌, ◌++◌, arith, ltb, Bool-cases, is_some, length, drop, All, Str,
}
use tracegarden.Prelude.Dates.{Dates}
use tracegarden.Prelude.Result.{Result, ok, err, ◌>>=◌}
use tracegarden.Timeline.Records.{Store, Content, observed, experiment}
use tracegarden.Timeline.Queries.{
  TimelineQuery, ListedEntry, entry_matches_query, content_matches, timeline_filters,
}
use tracegarden.Timeline.Cursors.{
  encode_live_timeline_cursor, Platform, QueryError, more_pages, DecodedCursor, history,
  encode_timeline_cursor, decode_timeline_cursor, signed_timeline_cursor, decode_fields,
}
use tracegarden.Timeline.Pages.{
  TimelinePage, is_live, sort_by, after_position, matching, page_behind, page_from_entries,
  given_cursor, listed_entries, list_timeline_entries, at_cursor, unread_for,
}
use tracegarden.Timeline.Ascending.{IsAscending, All_middle, filter_behind}
use tracegarden.Timeline.Positions.{HasTime, after_position-IsStrict}
use tracegarden.Timeline.Splits.{drop_whole, take-drop, append_two, append_one, cut_page, append_ne}

module _ (p : Platform) (d : Dates) (secret : Str) (workspace : Str) (member_id : Option Str)
    (s : Store) where
  -- The entries of the pages that follow a cursor, at most so many pages.
  unfoldable pub read_rest : ℕ → TimelineQuery → Option Str → Result QueryError (List ListedEntry)
  unfolding list_timeline_entries
  read_rest fuel q none = ok []
  read_rest fuel q (some []) = ok []
  read_rest zero q (some (c ∷ cursor)) = err more_pages
  read_rest (suc fuel) q (some (c ∷ cursor)) = do
    page ← list_timeline_entries p d secret workspace member_id s (at_cursor q (c ∷ cursor))
    rest ← read_rest fuel q page.next_cursor
    ok (page.entries ++ rest)

  -- What a reader sees who follows the cursors from the first page on.
  unfoldable pub read_all : ℕ → TimelineQuery → Result QueryError (List ListedEntry)
  unfolding read_rest
  read_all fuel q = do
    page ← list_timeline_entries p d secret workspace member_id s q
    rest ← read_rest fuel q page.next_cursor
    ok (page.entries ++ rest)

  module _ (q : TimelineQuery) where
    abbrev pub listed : List ListedEntry
    listed = listed_entries workspace member_id s

    abbrev pub sorted : List ListedEntry
    sorted = sort_by (after_position d) (matching q listed)

    -- The cursor of the entry is read back.
    abbrev pub ReadsBack : ListedEntry → Type 0
    ReadsBack x =
        decode_timeline_cursor p d (encode_timeline_cursor p x q secret member_id) q secret
          member_id
        ≡ ok (history x.entry.occurred_at x.entry.id)

    abbrev pub shown : Option DecodedCursor → List ListedEntry → TimelinePage
    shown cursor rest = record (page_behind p d secret q member_id cursor rest s.next_sequence) {
      unread_attention_count = unread_for workspace member_id s;
    }

    decode-at_cursor :
        (c text : Str)
        → decode_timeline_cursor p d text (at_cursor q c) secret member_id
          ≡ decode_timeline_cursor p d text q secret member_id
    unfolding decode_timeline_cursor decode_fields timeline_filters
    decode-at_cursor c text = refl

    page_behind-at_cursor :
        (c : Str) (cursor : Option DecodedCursor) (rest : List ListedEntry) (current : ℕ)
        → page_behind p d secret (at_cursor q c) member_id cursor rest current
          ≡ page_behind p d secret q member_id cursor rest current
    unfolding page_behind encode_timeline_cursor encode_live_timeline_cursor timeline_filters
    page_behind-at_cursor c cursor rest current = refl

    content_matches-at_cursor :
        (c : Str) (x : Content) → content_matches (at_cursor q c) x ≡ content_matches q x
    unfolding content_matches
    content_matches-at_cursor c (observed x) = refl
    content_matches-at_cursor c (experiment x) = refl

    matching-at_cursor :
        (c : Str) (xs : List ListedEntry) → matching (at_cursor q c) xs ≡ matching q xs
    unfolding entry_matches_query
    matching-at_cursor c [] = refl
    matching-at_cursor c (x ∷ xs) =
        rw (content_matches-at_cursor c x.entry.content, matching-at_cursor c xs) refl

    given-encoded :
        (x : ListedEntry)
        → ReadsBack x
        → (c : ℕ) × (text : Str) × (encode_timeline_cursor p x q secret member_id ≡ c ∷ text)
          × (given_cursor p d secret (at_cursor q (c ∷ text)) member_id (some (c ∷ text))
              ≡ ok (some (history x.entry.occurred_at x.entry.id)))
    unfolding encode_timeline_cursor signed_timeline_cursor
    given-encoded x h =
        let (c, text, e) = append_ne _ b'.' _ in
        (c, text, e, rw (decode-at_cursor (c ∷ text) (c ∷ text), rw e at h) refl)

    -- The page behind the cursor of an entry.
    list_behind :
        (x : ListedEntry) (c : ℕ) (text : Str) (front rest : List ListedEntry)
        → All (HasTime d) sorted
        → IsAscending (after_position d) sorted
        → given_cursor p d secret (at_cursor q (c ∷ text)) member_id (some (c ∷ text))
          ≡ ok (some (history x.entry.occurred_at x.entry.id))
        → sorted ≡ front ++ x ∷ rest
        → (is_some q.unread && not (is_some member_id)) ≡ false
        → list_timeline_entries p d secret workspace member_id s (at_cursor q (c ∷ text))
          ≡ ok (shown (some (history x.entry.occurred_at x.entry.id)) rest)
    unfolding list_timeline_entries page_from_entries
    list_behind x c text front rest times ascending g e u =
        let behind =
          filter_behind (after_position d) (HasTime d) (after_position-IsStrict d) x front rest
            (subst (All (HasTime d)) e times)
            (subst (IsAscending (after_position d)) e ascending) in
        rw (u, g, matching-at_cursor (c ∷ text) listed, e, behind) refl

    read_rest-none : (fuel : ℕ) → read_rest fuel q none ≡ ok []
    unfolding read_rest
    read_rest-none zero = refl
    read_rest-none (suc fuel) = refl

    module _ (limited : 1 ≤ q.limit) (u : (is_some q.unread && not (is_some member_id)) ≡ false)
        (times : All (HasTime d) sorted) (ascending : IsAscending (after_position d) sorted)
        (cursors : All ReadsBack sorted) where
      -- The pages that follow a page of the sorted entries.
      pub following :
          (fuel : ℕ) (cursor : Option DecodedCursor) (front rest : List ListedEntry)
          → is_live cursor ≡ false
          → sorted ≡ front ++ rest
          → length rest ≤ fuel
          → read_rest fuel q (shown cursor rest).next_cursor ≡ ok (drop q.limit rest)
      unfolding page_behind read_rest
      following zero cursor front rest l e b = elim (Bool-cases (ltb q.limit (length rest))) [
        | inr t ↦ rw (t, drop_whole q.limit rest t) (read_rest-none zero)
        | inl t ↦ absurd (ground (arith, b, t))
      ]
      following (suc fuel) cursor front rest l e b = elim (Bool-cases (ltb q.limit (length rest))) [
        | inr t ↦ rw (t, drop_whole q.limit rest t) (read_rest-none (suc fuel))
        | inl t ↦
            let f = cut_page q.limit rest limited t in
            let here : sorted ≡ (front ++ f.front) ++ f.last ∷ f.behind =
              e ∙ (ap (λ r. front ++ r) f.split ∙ sym (append_two front f.front f.last f.behind)) in
            let reads =
              All_middle ReadsBack (front ++ f.front) f.last f.behind
                (subst (All ReadsBack) here cursors) in
            let (c, text, encoded, given) = given-encoded f.last reads in
            let page =
              list_behind f.last c text (front ++ f.front) f.behind times ascending given here u in
            let there : sorted ≡ ((front ++ f.front) ++ f.last ∷ []) ++ f.behind =
              here ∙ sym (append_one (front ++ f.front) f.last f.behind) in
            let next =
              following fuel (some (history f.last.entry.occurred_at f.last.entry.id))
                ((front ++ f.front) ++ f.last ∷ []) f.behind refl there
                (omega (arith, b, f.shorter)) in
            rw (t, f.ends, l, encoded, page, next, take-drop q.limit f.behind, f.dropped) refl
      ]
