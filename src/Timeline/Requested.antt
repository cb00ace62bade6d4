-- ===== src/Timeline/Requested.antt =====
-- What a parsed request for a page asks for: packages/db/src/index.ts, `parseTimelineQuery`.
use tracegarden.Prelude.{
  ℕ, ◌≤◌, ◌≡◌, refl, subst, inl, inr, Bool, true, false, ◌&&◌, Option, none, some, List, [], ◌∷◌,
  arith, leb, if◌then◌else◌, leb→le, Bool-cases, Option-cases, length, Str, js, trim, truthy,
}
use tracegarden.Prelude.Result.{ok, err, ok_inj}
use tracegarden.Prelude.Value.{
  Value, undefined, null, boolean, whole, negative, not_integer, string, array, object, Fields,
  prop, record_of,
}
use tracegarden.Logs.Parsed.{no_issues}
use tracegarden.Timeline.Queries.{TimelineQuery}
use tracegarden.Timeline.Requests.{
  QueryIssue, FilterField, namespace_filter, name_filter, state_filter, not_an_object, too_long,
  bad_cursor, bad_limit, bad_state, unread_without_attention, text_filter, filter_issues,
  limit_issues, cursor_issues, kind_filter_issues, boolean_issues, attention_filter, unread_filter,
  state_or_phase, is_timeline_state, asks_read_attention, has_shape, query_of, query_issues,
  checked_query, parse_timeline_query,
}

abbrev pub IsShort : ℕ → Option Str → Type 0
IsShort limit none = Unit
IsShort limit (some s) = length s ≤ limit

pub record IsPageRequest (q : TimelineQuery) : Type 0 where
  pub limited : 1 ≤ q.limit
  pub at_most : q.limit ≤ 100
  pub shaped : has_shape q.cursor ≡ true
  pub namespace_short : IsShort 63 q.namespace
  pub name_short : IsShort 253 q.name
  pub state_known : is_timeline_state q.state ≡ true
  pub consistent : asks_read_attention q.unread q.attention ≡ false

limit_lem : (n : ℕ) → limit_issues n ≡ [] → (1 ≤ n) × (n ≤ 100)
limit_lem n h = elim (Bool-cases (leb 1 n && leb n 100)) [
  | inl t ↦ ground (arith, t)
  | inr t ↦ let bad : bad_limit ∷ [] ≡ [] = rw t at h in cc
]

bounded-IsShort :
    (t : Str) (at : FilterField) (limit : ℕ)
    → ◌≡◌ {A = List QueryIssue} (if leb (length t) limit then [] else too_long at limit ∷ []) []
    → IsShort limit (if truthy t then some t else none)
bounded-IsShort [] at limit h = tt
bounded-IsShort (c ∷ t) at limit h = elim (Bool-cases (leb (length (c ∷ t)) limit)) [
  | inl l ↦ leb→le _ _ l
  | inr l ↦ let bad : too_long at limit ∷ [] ≡ [] = rw l at h in cc
]

filter-IsShort :
    (v : Value) (at : FilterField) (limit : ℕ)
    → filter_issues v at limit ≡ []
    → IsShort limit (text_filter v)
filter-IsShort (string s) at limit h = bounded-IsShort (trim s) at limit h
filter-IsShort undefined at limit h = tt
filter-IsShort null at limit h = tt
filter-IsShort (boolean b) at limit h = tt
filter-IsShort (whole n) at limit h = tt
filter-IsShort (negative n) at limit h = tt
filter-IsShort not_integer at limit h = tt
filter-IsShort (array items) at limit h = tt
filter-IsShort (object fields) at limit h = tt

state_lem : (b : Bool) → ◌≡◌ {A = List QueryIssue} (if b then [] else bad_state ∷ []) [] → b ≡ true
state_lem true h = refl
state_lem false h = cc

unread_lem :
    (b : Bool)
    → ◌≡◌ {A = List QueryIssue} (if b then unread_without_attention ∷ [] else []) []
    → b ≡ false
unread_lem true h = cc
unread_lem false h = refl

checked_lem :
    (issues : List QueryIssue) (q q' : TimelineQuery)
    → checked_query issues q ≡ ok q'
    → (issues ≡ []) × (has_shape q.cursor ≡ true) × (q ≡ q')
checked_lem (i ∷ issues) q q' h = let bad : err (i ∷ issues) ≡ ok q' = h in cc
checked_lem [] q q' h = elim (Bool-cases (has_shape q.cursor)) [
  | inr t ↦ let bad : err (bad_cursor ∷ []) ≡ ok q' = rw t at h in cc
  | inl t ↦ (refl, t, ok_inj q q' (rw t at h))
]

query_of-IsPageRequest :
    (fields : Fields)
    → query_issues fields (query_of fields) ≡ []
    → has_shape (query_of fields).cursor ≡ true
    → IsPageRequest (query_of fields)
unfolding query_of query_issues
query_of-IsPageRequest fields h t =
    let q = query_of fields in
    let a = no_issues (limit_issues q.limit) _ h in
    let b = no_issues (cursor_issues (prop (js "cursor") fields)) _ a.1 in
    let c = no_issues (kind_filter_issues (prop (js "kind") fields)) _ b.1 in
    let n = no_issues (filter_issues (prop (js "namespace") fields) namespace_filter 63) _ c.1 in
    let m = no_issues (filter_issues (prop (js "name") fields) name_filter 253) _ n.1 in
    let s = no_issues (filter_issues (state_or_phase fields) state_filter 50) _ m.1 in
    let k = no_issues (if is_timeline_state q.state then [] else bad_state ∷ []) _ s.1 in
    let x = no_issues (boolean_issues (prop (js "attention") fields) attention_filter) _ k.1 in
    let y = no_issues (boolean_issues (prop (js "unread") fields) unread_filter) _ x.1 in
    let limits = limit_lem q.limit a.0 in
    record {
      limited = limits.0;
      at_most = limits.1;
      shaped = t;
      namespace_short = filter-IsShort (prop (js "namespace") fields) namespace_filter 63 n.0;
      name_short = filter-IsShort (prop (js "name") fields) name_filter 253 m.0;
      state_known = state_lem _ k.0;
      consistent = unread_lem _ y.1;
    }

-- A request that is parsed asks for 1 to 100 entries, behind no cursor or behind one of the right
-- shape, of a namespace of at most 63 units, a name of at most 253 and a phase that a Pod can have,
-- where they are given, and never for what is unread and needs no attention.
pub parse_timeline_query-IsPageRequest :
    (input : Value) (q : TimelineQuery) → parse_timeline_query input ≡ ok q → IsPageRequest q
unfolding parse_timeline_query
parse_timeline_query-IsPageRequest input q h = elim (Option-cases (record_of input)) [
  | inl e ↦ let bad : err (not_an_object ∷ []) ≡ ok q = rw (e, parse_timeline_query) at h in cc
  | inr (fields, e) ↦
      let (issues, shaped, same) =
        checked_lem (query_issues fields (query_of fields)) (query_of fields) q
          (rw (e, parse_timeline_query) at h) in
      subst IsPageRequest same (query_of-IsPageRequest fields issues shaped)
]
