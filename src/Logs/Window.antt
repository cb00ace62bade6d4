-- ===== src/Logs/Window.antt =====
-- The request for a window: packages/logs/src/index.ts, `validateRecentLogWindowInput` and
-- `parseRecentLogWindowInput`.
use tracegarden.Prelude.{
  ℕ, Bool, not, ◌&&◌, ◌||◌, Option, none, some, List, [], ◌∷◌, ◌++◌, ltb, leb, if◌then◌else◌,
  length, all, Str, js, trim, truthy,
}
use tracegarden.Prelude.Result.{Result, ok, err}
use tracegarden.Prelude.Value.{
  Value, whole, record_of, Fields, prop, text_or_empty, max_safe_integer, split, split_on,
}
use tracegarden.Domain.Names.{is_dns_label, is_valid_cluster_id}
use tracegarden.Logs.Lines.{log_max_lines}

pub record RecentLogWindowInput : Type 0 where
  pub cluster_id : Str
  pub namespace : Str
  pub pod : Str
  pub container : Str
  pub tail : ℕ

-- The fields of which an issue can be.
pub data LogField : Type 0 where
  request_field cluster_id_field namespace_field pod_field container_field tail_field : LogField

-- A field that is invalid, or, of the last two, a cluster that is not configured and a namespace
-- outside the approved scope.
pub data LogIssue : Type 0 where
  invalid : LogField → LogIssue
  not_configured outside_scope : LogIssue

-- `isDnsSubdomain`.
unfoldable pub is_dns_subdomain : Str → Bool
unfolding is_dns_label split_on
is_dns_subdomain value =
    leb (length value) 253
    && all (λ label. leb (length label) 63 && is_dns_label label) (split b'.' value)

-- The issue of `stringField`, on the text with its white space removed.
abbrev pub text_issue : ℕ → (Str → Bool) → LogField → Str → List LogIssue
text_issue max_length pattern name text =
    if not (truthy text) || ltb max_length (length text) || not (pattern text)
    then invalid name ∷ []
    else []

abbrev pub pod_issue : Str → List LogIssue
pod_issue pod =
    if not (truthy pod) || not (is_dns_subdomain pod) then invalid pod_field ∷ [] else []

abbrev pub string_field : Str → Fields → Str
string_field name fields = trim (text_or_empty (prop name fields))

-- The tail where it is a safe integer, and not negative.
abbrev pub tail_of : Value → Option ℕ
tail_of (whole n) = if leb n max_safe_integer then some n else none
tail_of _ = none

abbrev pub tail_issue : Option ℕ → List LogIssue
tail_issue none = invalid tail_field ∷ []
tail_issue (some n) = if ltb n 1 || ltb log_max_lines n then invalid tail_field ∷ [] else []

abbrev pub or_zero : Option ℕ → ℕ
or_zero none = 0
or_zero (some n) = n

abbrev pub window_of : Fields → RecentLogWindowInput
window_of fields = record {
  cluster_id = string_field (js "clusterId") fields;
  namespace = string_field (js "namespace") fields;
  pod = string_field (js "pod") fields;
  container = string_field (js "container") fields;
  tail = or_zero (tail_of (prop (js "tail") fields));
}

-- The issues of a request, in the order in which they are found.
unfoldable pub window_issues : Fields → List LogIssue
unfolding prop trim is_valid_cluster_id is_dns_label is_dns_subdomain
window_issues fields =
    let window = window_of fields in
    text_issue 128 is_valid_cluster_id cluster_id_field window.cluster_id
    ++ (text_issue 63 is_dns_label namespace_field window.namespace
        ++ (pod_issue window.pod
            ++ (text_issue 63 is_dns_label container_field window.container
                ++ tail_issue (tail_of (prop (js "tail") fields)))))

abbrev pub concluded :
    List LogIssue → RecentLogWindowInput → Result (List LogIssue) RecentLogWindowInput
concluded [] window = ok window
concluded (issue ∷ issues) window = err (issue ∷ issues)

unfoldable pub parse_recent_log_window_input : Value → Result (List LogIssue) RecentLogWindowInput
unfolding window_issues
parse_recent_log_window_input input = elim (record_of input) [
  | none ↦ err (invalid request_field ∷ [])
  | some fields ↦ concluded (window_issues fields) (window_of fields)
]
