-- ===== src/Scenarios/Requests.antt =====
-- The theorem on requests for a page, at a small request.
use tracegarden.Prelude.{◌≡◌, refl, true, none, some, js}
use tracegarden.Prelude.Result.{ok}
use tracegarden.Prelude.Value.{Value, string, object, end, field}
use tracegarden.Timeline.Queries.{TimelineQuery}
use tracegarden.Timeline.Requests.{parse_timeline_query}
use tracegarden.Timeline.Requested.{IsPageRequest, parse_timeline_query-IsPageRequest}

abbrev asked : Value
asked = object (
    field (js "limit") (string (js "20")) (
      field (js "name") (string (js " web "))
        (field (js "phase") (string (js "Failed")) (field (js "unread") (string (js "true")) end))))

abbrev wanted : TimelineQuery
wanted = record {
  limit = 20;
  cursor = none;
  kind = none;
  namespace = none;
  name = some (js "web");
  state = some (js "Failed");
  attention = none;
  unread = some true;
}

parsed : parse_timeline_query asked ≡ ok wanted
unfolding parse_timeline_query
parsed = refl

parse_timeline_query-IsPageRequest_example : IsPageRequest wanted
parse_timeline_query-IsPageRequest_example = parse_timeline_query-IsPageRequest asked wanted parsed
