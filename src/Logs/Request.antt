-- ===== src/Logs/Request.antt =====
-- A request for recent logs: packages/logs/src/index.ts, `requestRecentLogWindow`. What the cluster
-- is asked, what the audit store is given and what telemetry is sent are recorded.
use tracegarden.Prelude.{
  ℕ, zero, suc, not, ◌||◌, Option, none, some, List, [], ◌∷◌, ◌++◌, ◌==◌, if◌then◌else◌, any, Str,
  js, ◌===◌,
}
use tracegarden.Prelude.Result.{Result, ok, err}
use tracegarden.Prelude.Value.{Value}
use tracegarden.Identity.{Capability, logs_read, has_capability}
use tracegarden.Cluster.{ClusterScope}
use tracegarden.Delivery.Previews.{number_text}
use tracegarden.Logs.Lines.{LogPayload, Bounded, bound_recent_log_window}
use tracegarden.Logs.Window.{
  RecentLogWindowInput, LogIssue, not_configured, outside_scope, parse_recent_log_window_input,
}

pub record LogMember : Type 0 where
  pub id : Str
  pub workspace_id : Str
  pub capabilities : List Capability

pub data LogError : Type 0 where
  missing_logs_read : LogError
  invalid_window : List LogIssue → LogError
  unavailable : LogError
  audit_unavailable : LogError

-- `String(n)`.
abbrev pub whole_text : ℕ → Str
whole_text n = if n == 0 then js "0" else number_text n

-- `metadataFor`.
unfoldable pub metadata_for : RecentLogWindowInput → ℕ → ℕ → List (Str × Str)
unfolding number_text
metadata_for request line_count byte_count =
    (js "clusterId", request.cluster_id)
    ∷ (js "namespace", request.namespace)
    ∷ (js "pod", request.pod)
    ∷ (js "container", request.container)
    ∷ (js "tail", whole_text request.tail)
    ∷ (js "lineCount", whole_text line_count)
    ∷ (js "byteCount", whole_text byte_count)
    ∷ []

-- How a write to the audit store ends. A store that fails may have kept the record or not, and the code
-- sees only the failure.
pub data AuditOutcome : Type 0 where
  recorded failed_without_record failed_with_record : AuditOutcome

-- The adapter, which gives a payload or fails; the audit store, where there is one; and how many
-- telemetry emitters there are, none of which can change what happens.
pub record LogServices : Type 0 where
  pub adapter : RecentLogWindowInput → Option LogPayload
  pub audit_store : Option (Str → List (Str × Str) → AuditOutcome)
  pub emitters : ℕ

pub record LogEffects : Type 0 where
  pub reads : List RecentLogWindowInput
  pub audits : List (Str × List (Str × Str))
  pub events : List (List (Str × Str))

-- `validateScope`.
unfoldable pub validate_scope :
    Option ClusterScope → RecentLogWindowInput → Str → Result LogError (Unit {0})
unfolding ◌===◌
validate_scope none request workspace_id = err (invalid_window (not_configured ∷ []))
validate_scope (some scope) request workspace_id =
    if not (scope.workspace_id === workspace_id) || not (scope.cluster_id === request.cluster_id)
    then err (invalid_window (not_configured ∷ []))
    else if not (any (λ n. n === request.namespace) scope.namespaces)
    then err (invalid_window (outside_scope ∷ []))
    else ok tt

abbrev repeated : ℕ → List (Str × Str) → List (List (Str × Str))
repeated zero event = []
repeated (suc n) event = event ∷ repeated n event

unfoldable pub emit_telemetry : LogServices → List (Str × Str) → LogEffects → LogEffects
emit_telemetry services event effects = record effects {
  events = effects.events ++ repeated services.emitters event;
}

pub record RecentLogWindow : Type 0 where
  pub request : RecentLogWindowInput
  pub bounded : Bounded

module _ (services : LogServices) (member : LogMember) where
  -- After the adapter has answered: the audit, the telemetry and the window.
  unfoldable pub disclose :
      RecentLogWindowInput → Bounded → LogEffects → Result LogError RecentLogWindow × LogEffects
  unfolding emit_telemetry
  disclose request bounded effects =
      let metadata = metadata_for request bounded.line_count bounded.byte_count in
      let window : RecentLogWindow = record { request = request; bounded = bounded } in
      elim services.audit_store [
        | none ↦ (ok window, emit_telemetry services metadata effects)
        | some audit ↦
            let audited : LogEffects = record effects {
              audits = effects.audits ++ (member.id, metadata) ∷ [];
            } in
            elim (audit member.id metadata) [
              | recorded ↦ (ok window, emit_telemetry services metadata audited)
              | failed_without_record ↦ (err audit_unavailable, effects)
              | failed_with_record ↦ (err audit_unavailable, audited)
            ]
      ]

  unfoldable pub read_window :
      RecentLogWindowInput → LogEffects → Result LogError RecentLogWindow × LogEffects
  unfolding disclose
  read_window request effects =
      let asked : LogEffects = record effects { reads = effects.reads ++ request ∷ [] } in
      elim (services.adapter request) [
        | none ↦ (err unavailable, asked)
        | some payload ↦ disclose request (bound_recent_log_window payload request.tail) asked
      ]

  unfoldable pub request_recent_log_window :
      Option ClusterScope → Value → LogEffects → Result LogError RecentLogWindow × LogEffects
  request_recent_log_window scope input effects =
      if not (has_capability member.capabilities logs_read)
      then (err missing_logs_read, effects)
      else elim (parse_recent_log_window_input input) [
        | err issues ↦ (err (invalid_window issues), effects)
        | ok request ↦ elim (validate_scope scope request member.workspace_id) [
          | err e ↦ (err e, effects)
          | ok _ ↦ read_window request effects
        ]
      ]
