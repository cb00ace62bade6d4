-- ===== src/Timeline/Counted.antt =====
-- The count of the entries behind a cursor: packages/db/src/index.ts,
-- `countTimelineEntriesAfterCursor`.
use tracegarden.Prelude.{
  ℕ, zero, suc, ◌+◌, ◌≤◌, ◌≡◌, refl, ap, inl, inr, false, not, ◌&&◌, Option, none, some, List, [],
  ◌∷◌, ◌++◌, arith, is_some, length, All, length-append, Str,
}
use tracegarden.Prelude.Dates.{Dates}
use tracegarden.Prelude.Result.{ok, err, ok_inj, Result-cases}
use tracegarden.Timeline.Records.{Store, Content, observed, experiment}
use tracegarden.Timeline.Queries.{
  TimelineQuery, ListedEntry, entry_matches_query, content_matches, timeline_filters,
}
use tracegarden.Timeline.Cursors.{
  Platform, more_pages, encode_timeline_cursor, decode_timeline_cursor,
}
use tracegarden.Timeline.Pages.{
  after_position, matching, listed_entries, list_timeline_entries, at_cursor, count_from,
  count_timeline_entries_after_cursor,
}
use tracegarden.Timeline.Ascending.{length-sort_by}
use tracegarden.Timeline.Positions.{HasTime, HaveDistinctIds}
use tracegarden.Timeline.Behind.{read_all, read_rest, ReadsBack}
use tracegarden.Timeline.Paged.{read_all-sorted}

content_matches-limit :
    (q : TimelineQuery) (n : ℕ) (x : Content)
    → content_matches (record q { limit = n }) x ≡ content_matches q x
unfolding content_matches
content_matches-limit q n (observed x) = refl
content_matches-limit q n (experiment x) = refl

module _ (p : Platform) (d : Dates) (secret : Str) (workspace : Str) (member_id : Option Str)
    (s : Store) where
  -- The loop counts what a reader sees.
  count_from-read_rest :
      (fuel : ℕ) (q : TimelineQuery) (n : ℕ) (cursor : Option Str) (xs : List ListedEntry)
      → read_rest p d secret workspace member_id s fuel q cursor ≡ ok xs
      → count_from p d secret workspace member_id s fuel q n cursor ≡ ok (n + length xs)
  unfolding count_from read_rest
  count_from-read_rest zero q n none xs h = rw (← ok_inj [] xs h) (ap ok (omega arith))
  count_from-read_rest (suc fuel) q n none xs h = rw (← ok_inj [] xs h) (ap ok (omega arith))
  count_from-read_rest zero q n (some []) xs h = rw (← ok_inj [] xs h) (ap ok (omega arith))
  count_from-read_rest (suc fuel) q n (some []) xs h = rw (← ok_inj [] xs h) (ap ok (omega arith))
  count_from-read_rest zero q n (some (c ∷ text)) xs h = let bad : err more_pages ≡ ok xs = h in cc
  count_from-read_rest (suc fuel) q n (some (c ∷ text)) xs h =
      elim (Result-cases
        (list_timeline_entries p d secret workspace member_id s (at_cursor q (c ∷ text)))) [
          | inl (e, f) ↦ let bad : err e ≡ ok xs = rw f at h in cc
          | inr (page, f) ↦
              elim (Result-cases
                (read_rest p d secret workspace member_id s fuel q page.next_cursor)) [
                  | inl (e, g) ↦ let bad : err e ≡ ok xs = rw (f, g) at h in cc
                  | inr (rest, g) ↦
                      let same : page.entries ++ rest ≡ xs = ok_inj _ _ (rw (f, g) at h) in
                      rw
                        (
                          f,
                          count_from-read_rest fuel q (n + length page.entries) page.next_cursor
                              rest g,
                          ← same,
                        )
                        (ap ok (omega (arith, length-append page.entries rest)))
                ]
        ]

  count-read_all :
      (fuel : ℕ) (q : TimelineQuery) (xs : List ListedEntry)
      → read_all p d secret workspace member_id s fuel (record q { limit = 100 }) ≡ ok xs
      → count_timeline_entries_after_cursor p d secret workspace member_id s fuel q ≡ ok (length xs)
  unfolding count_timeline_entries_after_cursor read_all
  count-read_all fuel q xs h =
      elim (Result-cases
        (list_timeline_entries p d secret workspace member_id s (record q { limit = 100 }))) [
          | inl (e, f) ↦ let bad : err e ≡ ok xs = rw f at h in cc
          | inr (page, f) ↦
              elim (Result-cases (
                read_rest p d secret workspace member_id s fuel (record q { limit = 100 })
                  page.next_cursor)) [
                    | inl (e, g) ↦ let bad : err e ≡ ok xs = rw (f, g) at h in cc
                    | inr (rest, g) ↦
                        let same : page.entries ++ rest ≡ xs = ok_inj _ _ (rw (f, g) at h) in
                        rw
                          (
                            f,
                            count_from-read_rest fuel (record q { limit = 100 })
                                (length page.entries) page.next_cursor rest g,
                            ← same,
                          )
                          (ap ok (omega (arith, length-append page.entries rest)))
                  ]
        ]

  matching-limit :
      (q : TimelineQuery) (n : ℕ) (xs : List ListedEntry)
      → matching (record q { limit = n }) xs ≡ matching q xs
  unfolding entry_matches_query
  matching-limit q n [] = refl
  matching-limit q n (x ∷ xs) =
      rw (content_matches-limit q n x.entry.content, matching-limit q n xs) refl

  -- The count is that of all entries that match a query, though it is taken by pages of a hundred and
  -- needs no more further pages than there are entries: for a query without a cursor, if the entries
  -- are dated, no two have one id, each one's cursor is read back, and a member is given where the
  -- query asks what is unread.
  pub count_timeline_entries_after_cursor-matching :
      (fuel : ℕ) (q : TimelineQuery)
      → q.cursor ≡ none
      → (is_some q.unread && not (is_some member_id)) ≡ false
      → All (HasTime d) (listed_entries workspace member_id s)
      → HaveDistinctIds (listed_entries workspace member_id s)
      → All (ReadsBack p d secret workspace member_id s q) (listed_entries workspace member_id s)
      → length (listed_entries workspace member_id s) ≤ fuel
      → count_timeline_entries_after_cursor p d secret workspace member_id s fuel q
        ≡ ok (length (matching q (listed_entries workspace member_id s)))
  unfolding decode_timeline_cursor encode_timeline_cursor timeline_filters
  count_timeline_entries_after_cursor-matching fuel q c u times apart cursors b =
      let q' = record q { limit = 100 } in
      let (read, ascending) =
        read_all-sorted p d secret workspace member_id s q' fuel c u (omega arith) times apart
          cursors b in
      rw
        (
          count-read_all fuel q _ read,
          length-sort_by (after_position d) (matching q' (listed_entries workspace member_id s)),
          matching-limit q 100 (listed_entries workspace member_id s),
        )
        refl
