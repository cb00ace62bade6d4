-- ===== src/Timeline/Requests.antt =====
-- The parsing of a request for a page: packages/db/src/index.ts, `optionalTimelineFilter`,
-- `optionalTimelineBoolean` and `parseTimelineQuery`.
use tracegarden.Prelude.{
  ℕ, Bool, true, false, ◌&&◌, Option, none, some, List, [], ◌∷◌, ◌++◌, leb, if◌then◌else◌, is_some,
  length, any, Str, js, ◌===◌, trim, truthy,
}
use tracegarden.Prelude.Result.{Result, ok, err}
use tracegarden.Prelude.Value.{
  Value, undefined, boolean, whole, string, Fields, prop, is_decimal, decimal, record_of,
}
use tracegarden.Cluster.{ResourceKind}
use tracegarden.Cluster.Scope.{kind_named}
use tracegarden.Timeline.Queries.{TimelineQuery}
use tracegarden.Timeline.Cursors.{valid_timeline_cursor_shape}

pub data FilterField : Type 0 where
  namespace_filter name_filter state_filter attention_filter unread_filter : FilterField

pub data QueryIssue : Type 0 where
  not_an_object bad_limit bad_cursor bad_kind bad_state unread_without_attention : QueryIssue
  not_a_string not_a_boolean : FilterField → QueryIssue
  too_long : FilterField → ℕ → QueryIssue

-- A filter that was given, and what is wrong with it.
abbrev pub text_filter : Value → Option Str
text_filter (string s) = if truthy (trim s) then some (trim s) else none
text_filter _ = none

abbrev pub filter_issues : Value → FilterField → ℕ → List QueryIssue
filter_issues undefined at limit = []
filter_issues (string s) at limit =
    if leb (length (trim s)) limit then [] else too_long at limit ∷ []
filter_issues _ at limit = not_a_string at ∷ []

abbrev boolean_filter : Value → Option Bool
boolean_filter (boolean b) = some b
boolean_filter (string s) =
    if s === js "true" then some true else if s === js "false" then some false else none
boolean_filter _ = none

abbrev pub boolean_issues : Value → FilterField → List QueryIssue
boolean_issues undefined at = []
boolean_issues value at = if is_some (boolean_filter value) then [] else not_a_boolean at ∷ []

-- The limit, of which 0 stands for what is no integer.
abbrev pub limit_of : Value → ℕ
limit_of undefined = 50
limit_of (whole n) = n
limit_of (string s) = if is_decimal (trim s) then decimal (trim s) else 0
limit_of _ = 0

abbrev pub limit_issues : ℕ → List QueryIssue
limit_issues n = if leb 1 n && leb n 100 then [] else bad_limit ∷ []

abbrev cursor_of : Value → Option Str
cursor_of value = text_filter value

abbrev pub cursor_issues : Value → List QueryIssue
cursor_issues undefined = []
cursor_issues value = if is_some (cursor_of value) then [] else bad_cursor ∷ []

abbrev kind_filter : Value → Option ResourceKind
kind_filter (string s) = kind_named s
kind_filter _ = none

abbrev pub kind_filter_issues : Value → List QueryIssue
kind_filter_issues undefined = []
kind_filter_issues value = if is_some (kind_filter value) then [] else bad_kind ∷ []

abbrev timeline_states : List Str
timeline_states = js "Pending" ∷ js "Running" ∷ js "Succeeded" ∷ js "Failed" ∷ js "Unknown" ∷ []

abbrev pub is_timeline_state : Option Str → Bool
is_timeline_state none = true
is_timeline_state (some s) = any (λ t. t === s) timeline_states

-- `record.state === undefined ? record.phase : record.state`.
abbrev or_phase : Value → Value → Value
or_phase undefined phase = phase
or_phase state phase = state

abbrev pub state_or_phase : Fields → Value
state_or_phase fields = or_phase (prop (js "state") fields) (prop (js "phase") fields)

abbrev pub asks_read_attention : Option Bool → Option Bool → Bool
asks_read_attention (some true) (some false) = true
asks_read_attention _ _ = false

unfoldable pub query_of : Fields → TimelineQuery
unfolding prop trim is_decimal decimal kind_named ◌===◌
query_of fields = record {
  limit = limit_of (prop (js "limit") fields);
  cursor = cursor_of (prop (js "cursor") fields);
  kind = kind_filter (prop (js "kind") fields);
  namespace = text_filter (prop (js "namespace") fields);
  name = text_filter (prop (js "name") fields);
  state = text_filter (state_or_phase fields);
  attention = boolean_filter (prop (js "attention") fields);
  unread = boolean_filter (prop (js "unread") fields);
}

-- The issues in the order of the source.
unfoldable pub query_issues : Fields → TimelineQuery → List QueryIssue
unfolding prop trim kind_named ◌===◌
query_issues fields q =
    limit_issues q.limit
    ++ (cursor_issues (prop (js "cursor") fields)
        ++ (kind_filter_issues (prop (js "kind") fields)
            ++ (filter_issues (prop (js "namespace") fields) namespace_filter 63
                ++ (filter_issues (prop (js "name") fields) name_filter 253
                    ++ (filter_issues (state_or_phase fields) state_filter 50
                        ++ ((if is_timeline_state q.state then [] else bad_state ∷ [])
                            ++ (boolean_issues (prop (js "attention") fields) attention_filter
                                ++ (boolean_issues (prop (js "unread") fields) unread_filter
                                    ++ (if asks_read_attention q.unread q.attention
                                        then unread_without_attention ∷ []
                                        else [])))))))))

abbrev pub has_shape : Option Str → Bool
has_shape none = true
has_shape (some c) = is_some (valid_timeline_cursor_shape c)

abbrev pub checked_query : List QueryIssue → TimelineQuery → Result (List QueryIssue) TimelineQuery
checked_query (i ∷ issues) q = err (i ∷ issues)
checked_query [] q = if has_shape q.cursor then ok q else err (bad_cursor ∷ [])

unfoldable pub parse_timeline_query : Value → Result (List QueryIssue) TimelineQuery
unfolding query_of query_issues valid_timeline_cursor_shape
parse_timeline_query input = elim (record_of input) [
  | none ↦ err (not_an_object ∷ [])
  | some fields ↦ checked_query (query_issues fields (query_of fields)) (query_of fields)
]
