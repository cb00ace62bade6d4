-- ===== src/Scenarios/Windows.antt =====
-- The theorems on recent logs at a small window.
use tracegarden.Prelude.{
  ℕ, ◌+◌, ◌≤◌, ◌≡◌, refl, ◌⊎◌, true, some, List, [], ◌∷◌, ◌++◌, arith, leb, if◌then◌else◌, length,
  Str, js, ◌===◌, truthy,
}
use tracegarden.Prelude.Result.{ok, err}
use tracegarden.Domain.Names.{is_valid_cluster_id, is_dns_label}
use tracegarden.Logs.Window.{is_dns_subdomain}
use tracegarden.Prelude.Value.{split_on}
use tracegarden.Identity.{logs_read, has_capability}
use tracegarden.Cluster.{ClusterScope}
use tracegarden.Logs.Utf8.{units, text_encode, scalars, units_of}
use tracegarden.Logs.Lines.{LogPayload, text, bound_window, window_lines, join_lines, log_max_lines}
use tracegarden.Logs.Feeds.{feeds, IsUtf16Payload}
use tracegarden.Logs.Cut.{fitting}
use tracegarden.Logs.Windows.{bound_window-IsBounded, bound_window-body}
use tracegarden.Logs.Window.{RecentLogWindowInput, parse_recent_log_window_input}
use tracegarden.Logs.Parsed.{IsWindow, object_of, parse_recent_log_window_input-object_of}
use tracegarden.Logs.Stream.{read_bytes}
use tracegarden.Logs.Chunks.{bounded_prefix, concatenated, read_bytes-bounded_prefix}
use tracegarden.Logs.Request.{
  LogMember, recorded, LogServices, LogEffects, LogError, request_recent_log_window,
}
use tracegarden.Logs.Guarded.{IsApprovedFor, Withheld, Disclosed, request_recent_log_window-guarded}

-- Three lines, the last with a letter of two bytes; six bytes cut that letter off.
abbrev payload : LogPayload
payload = text (b'a' ∷ 10 ∷ b'b' ∷ 13 ∷ 10 ∷ b'c' ∷ b'd' ∷ b'e' ∷ 233 ∷ [])

abbrev clean : IsUtf16Payload payload
clean = omega arith

bound_window-IsBounded_example :
    let window = bound_window 6 payload 2 in
    (window.byte_count ≡ length (text_encode window.body))
    × (window.byte_count ≤ 6)
    × (window.line_count ≤ 2)
    × (window.line_count ≤ log_max_lines)
    × (window.line_count ≡ (if truthy window.body then feeds window.body + 1 else 0))
bound_window-IsBounded_example = bound_window-IsBounded 6 payload 2 (omega arith) (omega arith)

bound_window-body_example :
    let lines = join_lines (window_lines payload 2) in
    let body = (bound_window 6 payload 2).body in
    (body ≡ (
      if leb (length (text_encode lines)) 6 then lines else units_of (fitting 6 (scalars lines))))
    × (rest : Str) × (body ++ rest ≡ lines)
unfolding window_lines scalars units
bound_window-body_example = bound_window-body 6 payload 2 (omega arith) refl refl

abbrev wanted : RecentLogWindowInput
wanted = record {
  cluster_id = js "c1";
  namespace = js "apps";
  pod = js "web-1.x";
  container = js "web";
  tail = 20;
}

may_be_asked : IsWindow wanted
unfolding is_valid_cluster_id is_dns_label is_dns_subdomain split_on
may_be_asked = record {
  valid_cluster = refl;
  valid_namespace = (omega arith, refl);
  valid_pod = refl;
  valid_container = (omega arith, refl);
  few_lines = (omega arith, omega arith);
}

parse_recent_log_window_input-object_of_example :
    parse_recent_log_window_input (object_of wanted) ≡ ok wanted
parse_recent_log_window_input-object_of_example =
    parse_recent_log_window_input-object_of wanted may_be_asked

wanted_parsed : parse_recent_log_window_input (object_of wanted) ≡ ok wanted
unfolding parse_recent_log_window_input ◌===◌
wanted_parsed = refl

abbrev chunks : List (List ℕ)
chunks = (1 ∷ 10 ∷ []) ∷ [] ∷ (2 ∷ 3 ∷ 10 ∷ 4 ∷ []) ∷ (5 ∷ []) ∷ []

read_bytes-bounded_prefix_example : read_bytes 8 2 chunks ≡ bounded_prefix 8 2 (concatenated chunks)
read_bytes-bounded_prefix_example = read_bytes-bounded_prefix 8 2 chunks

abbrev member : LogMember
member = record { id = js "m1"; workspace_id = js "w"; capabilities = logs_read ∷ [] }

abbrev scope : ClusterScope
scope = record {
  workspace_id = js "w";
  cluster_id = js "c1";
  name = js "Home";
  endpoint = js "https://kube";
  namespaces = js "apps" ∷ [];
  resource_kinds = [];
}

abbrev services : LogServices
services = record {
  adapter = λ request. some payload;
  audit_store = some (λ id metadata. recorded);
  emitters = 1;
}

abbrev nothing_yet : LogEffects
nothing_yet = record { reads = []; audits = []; events = [] }

request_recent_log_window-guarded_example :
    let outcome =
      request_recent_log_window services member (some scope) (object_of wanted) nothing_yet in
    ((e : LogError) × (outcome ≡ (err e, nothing_yet)))
    ⊎ ((request : RecentLogWindowInput) × (sc : ClusterScope) × (has_capability member.capabilities
            logs_read
          ≡ true)
        × (parse_recent_log_window_input (object_of wanted) ≡ ok request)
        × (some scope ≡ some sc)
        × IsApprovedFor member.workspace_id request sc
        × (Withheld services member request nothing_yet outcome
            ⊎ Disclosed services member request nothing_yet outcome))
request_recent_log_window-guarded_example =
    request_recent_log_window-guarded services member (some scope) (object_of wanted) nothing_yet
