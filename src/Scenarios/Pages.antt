-- ===== src/Scenarios/Pages.antt =====
-- The theorems on the pages of a timeline, at two entries and pages of one.
use tracegarden.Prelude.{
  ◌-◌, ◌%◌, ◌≤◌, ◌≡◌, refl, ◌↔◌, true, false, none, some, List, [], ◌∷◌, ◌++◌, reverse, arith,
  length, All, Str, js, ◌===◌, In,
}
use tracegarden.Prelude.Result.{ok}
use tracegarden.Prelude.Value.{Value, whole, null, string, object, end, field, prop, text_or_empty}
use tracegarden.Timeline.Records.{Store, new_store, Entry, observed}
use tracegarden.Timeline.Queries.{TimelineQuery, ListedEntry, entry_matches_query}
use tracegarden.Timeline.Cursors.{
  Platform, history, drop_pads, pads, base64_url_encode, encode_timeline_cursor, is_entry_id,
  decode_timeline_cursor,
}
use tracegarden.Timeline.Pages.{
  after_position, matching, listed_entries, count_timeline_entries_after_cursor,
}
use tracegarden.Timeline.Ascending.{IsAscending}
use tracegarden.Timeline.Positions.{HasTime, HaveDistinctIds}
use tracegarden.Timeline.Behind.{read_all, ReadsBack}
use tracegarden.Timeline.Opened.{HasBase64, IsServed, decode_timeline_cursor-encode_timeline_cursor}
use tracegarden.Timeline.Paged.{read_all-IsAscending}
use tracegarden.Timeline.Counted.{count_timeline_entries_after_cursor-matching}
use tracegarden.Scenarios.Fixtures.{dates, pod_state}

abbrev entry_id_of : Value → Str
entry_id_of (object fields) = text_or_empty (prop (js "entryId") fields)
entry_id_of _ = []

abbrev payload_named : Str → Value
payload_named id = object (
    field (js "version") (whole 3) (
      field (js "occurredAt") (string id) (
        field (js "entryId") (string id)
          (field (js "memberId") null (field (js "filters") (string []) end)))))

-- A platform that writes the id of an entry for a payload, whose entries occur at the time of their id.
abbrev plain : Platform
plain = record {
  btoa = λ bytes. bytes ++ pads ((4 - length bytes % 4) % 4);
  atob = λ s. some (reverse (drop_pads (reverse s)));
  utf8 = λ s. s;
  text_decode = λ bytes. bytes;
  hmac = λ secret s. s;
  stringify = entry_id_of;
  json_parse = λ s. some (payload_named s);
}

abbrev entry_at : Str → Entry
entry_at id = record {
  id = id;
  sequence = 1;
  workspace_id = js "w";
  occurred_at = id;
  content = observed (record {
    cluster_id = js "c";
    attention_item = false;
    attention_reason = none;
    recovery_of = none;
    observation = pod_state id false 3;
    attention = false;
    attention_unread = false;
  });
}

-- The later entry was stored first.
abbrev two : Store
two = record (new_store none) {
  entries = (js "b", entry_at (js "b")) ∷ (js "a", entry_at (js "a")) ∷ [];
}

abbrev one_by_one : TimelineQuery
one_by_one = record {
  limit = 1;
  cursor = none;
  kind = none;
  namespace = none;
  name = none;
  state = none;
  attention = none;
  unread = none;
}

abbrev listed_at : Str → ListedEntry
listed_at id = record { entry = entry_at id; confirmed_links = [] }

letter : HasBase64 plain (js "a")
letter = record { core = js "a"; filled = refl; chars = (refl, tt); padded = refl; back = refl }

served : IsServed plain dates (js "s") one_by_one none (listed_at (js "a"))
unfolding encode_timeline_cursor prop base64_url_encode ◌===◌
served = record {
  payload = letter;
  signature = letter;
  decoded = refl;
  parsed = refl;
  short = refl;
}

decode_timeline_cursor-encode_timeline_cursor_example :
    decode_timeline_cursor plain dates
      (encode_timeline_cursor plain (listed_at (js "a")) one_by_one (js "s") none)
      one_by_one
      (js "s")
      none
    ≡ ok (history (js "a") (js "a"))
unfolding is_entry_id
decode_timeline_cursor-encode_timeline_cursor_example =
    decode_timeline_cursor-encode_timeline_cursor plain dates (js "s") one_by_one none
      (listed_at (js "a")) 97 served refl refl refl

both : listed_entries (js "w") none two ≡ listed_at (js "b") ∷ listed_at (js "a") ∷ []
unfolding listed_entries new_store
both = refl

timed : All (HasTime dates) (listed_entries (js "w") none two)
unfolding listed_entries new_store
timed = ((98, refl), ((97, refl), tt))

apart : HaveDistinctIds (listed_entries (js "w") none two)
unfolding listed_entries new_store ◌===◌
apart = ((refl, tt), (tt, tt))

readable :
    All
      (ReadsBack plain dates (js "s") (js "w") none two one_by_one)
      (listed_entries (js "w") none two)
unfolding listed_entries new_store encode_timeline_cursor decode_timeline_cursor prop
readable = (refl, (refl, tt))

few : length (listed_entries (js "w") none two) ≤ 2
unfolding listed_entries new_store
few = omega arith

read_all-IsAscending_example :
    (xs : List ListedEntry) × (read_all plain dates (js "s") (js "w") none two 2 one_by_one ≡ ok xs)
    × IsAscending (after_position dates) xs
    × ((x : ListedEntry)
        → In x xs ↔ (
            In x (listed_entries (js "w") none two)
            × (entry_matches_query one_by_one x.entry ≡ true)))
read_all-IsAscending_example =
    read_all-IsAscending plain dates (js "s") (js "w") none two one_by_one 2 refl refl (omega arith)
      timed apart readable few

count_timeline_entries_after_cursor-matching_example :
    count_timeline_entries_after_cursor plain dates (js "s") (js "w") none two 2 one_by_one
    ≡ ok (length (matching one_by_one (listed_entries (js "w") none two)))
count_timeline_entries_after_cursor-matching_example =
    count_timeline_entries_after_cursor-matching plain dates (js "s") (js "w") none two 2 one_by_one
      refl refl timed apart readable few
