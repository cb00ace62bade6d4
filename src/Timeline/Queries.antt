-- ===== src/Timeline/Queries.antt =====
-- Queries of the timeline: packages/db/src/index.ts, `TimelineQuery`, `timelineFilters`,
-- `entryMatchesQuery` and the orders of entries.
use mathlib.Core.Option
use Prim.Native.Nat.{compare, Ordering}
use tracegarden.Prelude.{
  ℕ, Bool, true, false, not, ◌&&◌, Option, none, some, List, ◌==◌, if◌then◌else◌, is_some, Str, js,
  ◌===◌, ltb_str,
}
use tracegarden.Prelude.Dates.{Dates}
use tracegarden.Prelude.Value.{Value, undefined, null, boolean, string, object, end, field}
use tracegarden.Cluster.{ResourceKind, kind_text, Facts, pod_facts}
use tracegarden.Timeline.Records.{
  Entry, Content, observed, experiment, ObservationEntry, ConfirmedLink,
}

pub record TimelineQuery : Type 0 where
  pub limit : ℕ
  pub cursor : Option Str
  pub kind : Option ResourceKind
  pub namespace : Option Str
  pub name : Option Str
  pub state : Option Str
  pub attention : Option Bool
  pub unread : Option Bool

abbrev optional_text : Option Str → Value
optional_text none = undefined
optional_text (some s) = string s

abbrev optional_boolean : Option Bool → Value
optional_boolean none = undefined
optional_boolean (some b) = boolean b

-- `value ?? null` of a text.
abbrev pub text_or_null : Option Str → Value
text_or_null none = null
text_or_null (some s) = string s

-- `timelineFilters`, as `JSON.stringify` takes it.
unfoldable pub timeline_filters : TimelineQuery → Option Str → Value
timeline_filters q member_id = object (
    field (js "kind") (optional_text (Option.map kind_text q.kind)) (
      field (js "namespace") (optional_text q.namespace) (
        field (js "name") (optional_text q.name) (
          field (js "state") (optional_text q.state) (
            field (js "attention") (optional_boolean q.attention) (
              field (js "unread") (optional_boolean q.unread)
                (field (js "memberId") (text_or_null member_id) end)))))))

-- An entry with the confirmed links that `entryWithLinks` adds to it.
pub record ListedEntry : Type 0 where
  pub entry : Entry
  pub confirmed_links : List ConfirmedLink

-- `field === undefined || value === field`.
abbrev agrees_text : Option Str → Str → Bool
agrees_text none s = true
agrees_text (some t) s = s === t

abbrev same_bool : Bool → Bool → Bool
same_bool true b = b
same_bool false b = not b

abbrev agrees_bool : Option Bool → Bool → Bool
agrees_bool none b = true
agrees_bool (some c) b = same_bool c b

-- The state of a Pod is its phase; nothing else has one.
abbrev phase_of : Facts → Option Str
phase_of (pod_facts phase ready) = phase
phase_of _ = none

abbrev agrees_state : Option Str → Option Str → Bool
agrees_state none phase = true
agrees_state (some t) none = false
agrees_state (some t) (some s) = s === t

abbrev agrees_unread : Option Bool → ObservationEntry → Bool
agrees_unread none x = true
agrees_unread (some true) x = x.attention_item && x.attention_unread
agrees_unread (some false) x = not x.attention_unread

abbrev is_some_true : Option Bool → Bool
is_some_true (some b) = b
is_some_true none = false

unfoldable pub content_matches : TimelineQuery → Content → Bool
unfolding ◌===◌
content_matches q (experiment x) =
    not (is_some q.kind)
    && not (is_some q.namespace)
    && not (is_some q.name)
    && not (is_some q.state)
    && not (is_some_true q.attention)
    && not (is_some_true q.unread)
content_matches q (observed x) =
    agrees_text (Option.map kind_text q.kind) (kind_text x.observation.kind)
    && agrees_text q.namespace x.observation.namespace
    && agrees_text q.name x.observation.name
    && agrees_state q.state (phase_of x.observation.facts)
    && agrees_bool q.attention x.attention_item
    && agrees_unread q.unread x

unfoldable pub entry_matches_query : TimelineQuery → Entry → Bool
unfolding content_matches
entry_matches_query q e = content_matches q e.content

-- The order of texts that are compared by `===` and `<`.
unfoldable pub compare_text : Str → Str → Ordering
unfolding ◌===◌ ltb_str
compare_text a b = if a === b then Ordering.eq else if ltb_str a b then Ordering.lt else Ordering.gt

module _ (d : Dates) where
  -- `compareTimelinePositions`, of times and ids.
  unfoldable pub compare_timeline_positions : Str → Str → Str → Str → Ordering
  unfolding compare_text
  compare_timeline_positions time id time' id' = elim (d.parse time) [
    | some n ↦ elim (d.parse time') [
      | some m ↦ if n == m then compare_text id id' else compare n m
      | none ↦ if time === time' then compare_text id id' else compare_text time time'
    ]
    | none ↦ if time === time' then compare_text id id' else compare_text time time'
  ]
