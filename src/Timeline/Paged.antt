-- ===== src/Timeline/Paged.antt =====
-- What the pages of a timeline show to one who reads them all: packages/db/src/index.ts,
-- `listTimelineEntries`.
use tracegarden.Prelude.{
  ℕ, ◌≤◌, ◌≡◌, refl, ap, ◌↔◌, Bool, true, false, not, ◌&&◌, Option, none, List, [], arith, is_some,
  length, filter, All, length-filter, Str, In,
}
use tracegarden.Prelude.Dates.{Dates}
use tracegarden.Prelude.Result.{ok}
use tracegarden.Timeline.Records.{Store}
use tracegarden.Timeline.Queries.{TimelineQuery, ListedEntry, entry_matches_query}
use tracegarden.Timeline.Cursors.{Platform}
use tracegarden.Timeline.Pages.{
  sort_by, after_position, matching, page_behind, page_from_entries, list_timeline_entries,
}
use tracegarden.Timeline.Ascending.{
  IsAscending, AreRanked-filter, All-filter, All-sort_by, length-sort_by, In-sort_by, In-filter,
  sort_by-IsAscending,
}
use tracegarden.Timeline.Positions.{
  HasTime, HaveDistinctIds, ArePositioned-AreRanked, after_position-IsStrict,
}
use tracegarden.Timeline.Splits.{take-drop}
use tracegarden.Timeline.Behind.{read_all, listed, sorted, shown, ReadsBack, following}

module _ (p : Platform) (d : Dates) (secret : Str) (workspace : Str) (member_id : Option Str)
    (s : Store) where
  module _ (q : TimelineQuery) where
    -- The first page, read with no cursor.
    first_page :
        q.cursor ≡ none
        → (is_some q.unread && not (is_some member_id)) ≡ false
        → list_timeline_entries p d secret workspace member_id s q
          ≡ ok (
              shown p d secret workspace member_id s q none
                (sorted p d secret workspace member_id s q))
    unfolding list_timeline_entries page_from_entries
    first_page c u = rw (u, c) refl

    among :
        (match : ListedEntry → Bool) (x : ListedEntry)
        → In x
            (sort_by (after_position d) (filter match (listed p d secret workspace member_id s q)))
          ↔ (In x (listed p d secret workspace member_id s q) × (match x ≡ true))
    among match x =
        let (there, back) =
          In-sort_by (after_position d) x
            (filter match (listed p d secret workspace member_id s q)) in
        let (there', back') = In-filter match x (listed p d secret workspace member_id s q) in
        (λ m. there' (there m), λ m. back (back' m))

    pub read_all-sorted :
        (fuel : ℕ)
        → q.cursor ≡ none
        → (is_some q.unread && not (is_some member_id)) ≡ false
        → 1 ≤ q.limit
        → All (HasTime d) (listed p d secret workspace member_id s q)
        → HaveDistinctIds (listed p d secret workspace member_id s q)
        → All
            (ReadsBack p d secret workspace member_id s q)
            (listed p d secret workspace member_id s q)
        → length (listed p d secret workspace member_id s q) ≤ fuel
        → (read_all p d secret workspace member_id s fuel q
            ≡ ok (sorted p d secret workspace member_id s q))
          × IsAscending (after_position d) (sorted p d secret workspace member_id s q)
    unfolding read_all page_behind
    read_all-sorted fuel c u limited times apart cursors b =
        let match = λ (x : ListedEntry). entry_matches_query q x.entry in
        let times' =
          All-filter (HasTime d) match (listed p d secret workspace member_id s q) times in
        let ranked =
          AreRanked-filter (after_position d) match (listed p d secret workspace member_id s q)
            (ArePositioned-AreRanked d (listed p d secret workspace member_id s q) times apart) in
        let ascending =
          sort_by-IsAscending (after_position d) (HasTime d) (after_position-IsStrict d)
            (matching q (listed p d secret workspace member_id s q)) times' ranked in
        let rest =
          following p d secret workspace member_id s q limited u
            (All-sort_by (after_position d) (HasTime d) _ times') ascending
            (All-sort_by (after_position d) (ReadsBack p d secret workspace member_id s q) _ (
              All-filter (ReadsBack p d secret workspace member_id s q) match
                (listed p d secret workspace member_id s q) cursors))
            fuel none [] (sorted p d secret workspace member_id s q) refl refl
            (omega (
              arith,
              b,
              length-sort_by (after_position d)
                  (matching q (listed p d secret workspace member_id s q)),
              length-filter match (listed p d secret workspace member_id s q),
            )) in
        (
          rw (first_page c u, rest)
              (ap ok (take-drop q.limit (sorted p d secret workspace member_id s q))),
          ascending,
        )

    -- A reader who follows the cursors of a query from its first page on sees exactly the entries that
    -- match, in ascending positions and so each once, within as many further pages as there are entries:
    -- if the entries are dated, no two have one id, each one's cursor is read back, the limit is
    -- positive and a member is given where the query asks what is unread.
    pub read_all-IsAscending :
        (fuel : ℕ)
        → q.cursor ≡ none
        → (is_some q.unread && not (is_some member_id)) ≡ false
        → 1 ≤ q.limit
        → All (HasTime d) (listed p d secret workspace member_id s q)
        → HaveDistinctIds (listed p d secret workspace member_id s q)
        → All
            (ReadsBack p d secret workspace member_id s q)
            (listed p d secret workspace member_id s q)
        → length (listed p d secret workspace member_id s q) ≤ fuel
        → (xs : List ListedEntry) × (read_all p d secret workspace member_id s fuel q ≡ ok xs)
          × IsAscending (after_position d) xs
          × ((x : ListedEntry)
              → In x xs ↔ (
                  In x (listed p d secret workspace member_id s q)
                  × (entry_matches_query q x.entry ≡ true)))
    read_all-IsAscending fuel c u limited times apart cursors b =
        let (read, ascending) = read_all-sorted fuel c u limited times apart cursors b in
        (
          sorted p d secret workspace member_id s q,
          read,
          ascending,
          λ x. among (λ y. entry_matches_query q y.entry) x,
        )
