-- ===== src/Cluster/Normalize.antt =====
-- The normalization of a resource to an observation: packages/cluster/src/index.ts,
-- `baseObservation`, `normalizeObservation`, the functions for one kind, and `isResourceInScope`.
use tracegarden.Prelude.{
  ℕ, suc, Bool, true, false, not, ◌&&◌, Option, none, some, List, [], ◌∷◌, ◌++◌, leb, ◌==◌,
  if◌then◌else◌, is_some, or_else, any, Str, js, ◌===◌,
}
use tracegarden.Prelude.Dates.{Dates}
use tracegarden.Prelude.Dict.{Dict, get}
use tracegarden.Prelude.Result.{Result, ok, err, ◌>>=◌}
use tracegarden.Prelude.Value.{
  Value, whole, array, Items, nil, cons, Fields, prop, max_safe_integer,
}
use tracegarden.Delivery.Previews.{number_text}
use tracegarden.Cluster.{
  ResourceKind, deployment, stateful_set, daemon_set, replica_set, pod, job, cron_job, event,
  kind_text, ClusterScope, Classification, change, attention_needed, AttentionReason, Facts,
  replicas, stateful_set_facts, pod_facts, job_facts, cron_job_facts, event_facts, Observation,
}
use tracegarden.Cluster.Scope.{kind_named}
use tracegarden.Cluster.Resources.{
  KubernetesResource, optional_string, bounded_string, number_value, boolean_value, object_value,
  prop_of, prop_in, equals_text, selected_labels, normalized_owners, resource_status, resource_spec,
  condition, abnormal_condition, abnormal_reason, status_number, spec_number,
}

pub data NormalizationError : Type 0 where
  outside_scope incomplete bad_timestamp unexpected_kind : NormalizationError

-- `eventObject`.
abbrev pub event_object : KubernetesResource → Option Fields
event_object resource =
    or_else (object_value (prop (js "regarding") resource.others))
      (object_value (prop (js "involvedObject") resource.others))

-- `involvedNamespace`.
unfoldable pub involved_namespace : KubernetesResource → Option Str
unfolding optional_string prop
involved_namespace resource =
    or_else (optional_string (prop (js "namespace") resource.metadata))
      (optional_string (prop_of (js "namespace") (event_object resource)))

abbrev pub includes_kind : ResourceKind → List ResourceKind → Bool
includes_kind kind kinds = any (λ k. kind_text k === kind_text kind) kinds

abbrev pub namespace_in : Option Str → List Str → Bool
namespace_in none namespaces = false
namespace_in (some namespace) namespaces = any (λ n. n === namespace) namespaces

-- The kind of a resource, where `isResourceInScope` holds of it.
unfoldable pub kind_in_scope : ClusterScope → KubernetesResource → Option ResourceKind
unfolding kind_named involved_namespace ◌===◌
kind_in_scope scope resource = elim (kind_named resource.kind) [
  | none ↦ none
  | some kind ↦
      if includes_kind kind scope.resource_kinds
        && namespace_in (involved_namespace resource) scope.namespaces
      then some kind
      else none
]

unfoldable pub is_resource_in_scope : ClusterScope → KubernetesResource → Bool
unfolding kind_in_scope
is_resource_in_scope scope resource = is_some (kind_in_scope scope resource)

-- A generation that is a safe integer and not negative, as a text.
abbrev generation_text : Value → Option Str
generation_text (whole n) =
    if leb n max_safe_integer then some (if n == 0 then js "0" else number_text n) else none
generation_text _ = none

-- `revisionFor`.
unfoldable pub revision_for : KubernetesResource → Dict Str → Option Str
unfolding optional_string get
revision_for resource labels =
    or_else
      (optional_string (
        prop_in (js "deployment.kubernetes.io/revision")
          (prop (js "annotations") resource.metadata)))
      (or_else (optional_string (prop_in (js "updateRevision") (resource_status resource))) (
        or_else (optional_string (prop_in (js "currentRevision") (resource_status resource))) (
          or_else (get (js "controller-revision-hash") labels) (
            or_else (get (js "pod-template-hash") labels)
              (generation_text (prop (js "generation") resource.metadata))))))

-- The condition whose facts are shown.
unfoldable pub condition_facts : ResourceKind → KubernetesResource → Option Fields
unfolding abnormal_condition condition
condition_facts kind resource = or_else (abnormal_condition kind resource) (
    or_else (condition resource (js "Failed")) (
      or_else (condition resource (js "Degraded")) (
        or_else (condition resource (js "Available"))
          (or_else (condition resource (js "Progressing")) (condition resource (js "Ready"))))))

abbrev pub fact : Str → ℕ → ResourceKind → KubernetesResource → Option Str
fact key limit kind resource =
    or_else (bounded_string (prop_in key (resource_status resource)) limit)
      (bounded_string (prop_of key (condition_facts kind resource)) limit)

unfoldable pub reason_for : ResourceKind → KubernetesResource → Option Str
unfolding bounded_string condition_facts
reason_for event r = bounded_string (prop (js "reason") r.others) 256
reason_for pod r =
    or_else (optional_string (prop_in (js "reason") (resource_status r)))
      (optional_string (prop_of (js "reason") (condition r (js "Ready"))))
reason_for kind r = fact (js "reason") 256 kind r

unfoldable pub message_for : ResourceKind → KubernetesResource → Option Str
unfolding bounded_string condition_facts
message_for event r =
    or_else (bounded_string (prop (js "note") r.others) 2048)
      (bounded_string (prop (js "message") r.others) 2048)
message_for kind r = fact (js "message") 2048 kind r

abbrev version_text : Option Str → Str
version_text none = js "snapshot"
version_text (some v) = v

-- `status.active` of a CronJob is a list of its jobs.
abbrev count_items : Items → ℕ
count_items nil = 0
count_items (cons item items) = suc (count_items items)

abbrev readiness : Option Fields → Option Bool
readiness ready =
    if equals_text (prop_of (js "status") ready) (js "True")
    then some true
    else if equals_text (prop_of (js "status") ready) (js "False")
    then some false
    else none

abbrev pub classified : Option AttentionReason → Classification
classified none = change
classified (some reason) = attention_needed

abbrev pub required : Option Str → Result NormalizationError Str
required none = err incomplete
required (some s) = ok s

abbrev pub valid_time : Option ℕ → Result NormalizationError ℕ
valid_time none = err bad_timestamp
valid_time (some n) = ok n

module _ (d : Dates) where
  -- `timestampValue`.
  unfoldable pub timestamp_value : Value → Option Str
  unfolding optional_string
  timestamp_value value = elim (optional_string value) [
    | none ↦ none
    | some text ↦ elim (d.parse text) [ none ↦ none | some time ↦ some (d.iso time) ]
  ]

  abbrev status_time : KubernetesResource → Str → Option Str
  status_time r key = timestamp_value (prop_in key (resource_status r))

  abbrev active_of : KubernetesResource → Value → Option ℕ
  active_of r (array items) = some (count_items items)
  active_of r _ = status_number r (js "active")

  abbrev other_time : Str → KubernetesResource → Option Str
  other_time key r = timestamp_value (prop key r.others)

  -- The facts of each kind.
  unfoldable pub facts_for : ResourceKind → KubernetesResource → Facts
  unfolding timestamp_value number_value condition
  facts_for deployment r = replicas deployment (
      spec_number r (js "replicas")
      ∷ status_number r (js "availableReplicas")
      ∷ status_number r (js "readyReplicas")
      ∷ status_number r (js "updatedReplicas")
      ∷ status_number r (js "unavailableReplicas")
      ∷ [])
  facts_for stateful_set r =
      stateful_set_facts
        (spec_number r (js "replicas")
          ∷ status_number r (js "readyReplicas")
          ∷ status_number r (js "currentReplicas")
          ∷ status_number r (js "updatedReplicas")
          ∷ [])
        (optional_string (prop_in (js "currentRevision") (resource_status r)))
        (optional_string (prop_in (js "updateRevision") (resource_status r)))
  facts_for daemon_set r = replicas daemon_set (
      status_number r (js "desiredNumberScheduled")
      ∷ status_number r (js "currentNumberScheduled")
      ∷ status_number r (js "numberReady")
      ∷ status_number r (js "updatedNumberScheduled")
      ∷ status_number r (js "numberAvailable")
      ∷ status_number r (js "numberUnavailable")
      ∷ [])
  facts_for replica_set r = replicas replica_set (
      spec_number r (js "replicas")
      ∷ status_number r (js "replicas")
      ∷ status_number r (js "readyReplicas")
      ∷ status_number r (js "availableReplicas")
      ∷ [])
  facts_for pod r =
      pod_facts (optional_string (prop_in (js "phase") (resource_status r)))
        (readiness (condition r (js "Ready")))
  facts_for job r =
      job_facts
        (spec_number r (js "completions")
          ∷ status_number r (js "active")
          ∷ status_number r (js "succeeded")
          ∷ status_number r (js "failed")
          ∷ [])
        (status_time r (js "completionTime"))
  facts_for cron_job r =
      cron_job_facts (optional_string (prop_in (js "schedule") (resource_spec r)))
        (boolean_value (prop_in (js "suspend") (resource_spec r)))
        (active_of r (prop_in (js "active") (resource_status r)))
        (status_time r (js "lastScheduleTime") ∷ status_time r (js "lastSuccessfulTime") ∷ [])
  facts_for event r =
      let series = prop (js "series") r.others in
      let involved = event_object r in
      let event_time = other_time (js "eventTime") r in
      event_facts (optional_string (prop (js "type") r.others))
        (or_else (number_value (prop_in (js "count") series)) (
          or_else (number_value (prop (js "count") r.others))
            (number_value (prop (js "deprecatedCount") r.others))))
        (or_else (other_time (js "firstTimestamp") r)
            (or_else (other_time (js "deprecatedFirstTimestamp") r) event_time)
          ∷ or_else (other_time (js "lastTimestamp") r) (
              or_else (other_time (js "deprecatedLastTimestamp") r)
                (or_else (timestamp_value (prop_in (js "lastObservedTime") series)) event_time))
          ∷ optional_string (prop_of (js "kind") involved)
          ∷ optional_string (prop_of (js "name") involved)
          ∷ optional_string (prop_of (js "namespace") involved)
          ∷ optional_string (prop_of (js "uid") involved)
          ∷ [])

  -- The observation, once the identity of the resource and the time are known.
  unfoldable pub observation_of :
      ClusterScope → ResourceKind → KubernetesResource → Str → Str → Str → ℕ → Observation
  observation_of scope kind resource name namespace uid time =
      let version = optional_string (prop (js "resourceVersion") resource.metadata) in
      let labels = selected_labels (prop (js "labels") resource.metadata) in
      let attention = abnormal_reason kind resource in
      record {
        workspace_id = scope.workspace_id;
        cluster_id = scope.cluster_id;
        source_identity = scope.cluster_id ++ b':' ∷ uid;
        source_key = scope.cluster_id ++ b':' ∷ (uid ++ b':' ∷ version_text version);
        kind = kind;
        uid = uid;
        name = name;
        namespace = namespace;
        resource_version = version;
        classification = classified attention;
        attention = is_some attention;
        attention_reason = attention;
        recovery_of = none;
        reason = reason_for kind resource;
        message = message_for kind resource;
        owner_references = normalized_owners (prop (js "ownerReferences") resource.metadata);
        revision = revision_for resource labels;
        labels = labels;
        observed_at = d.iso time;
        facts = facts_for kind resource;
      }

  -- Behind the test of the scope.
  unfoldable pub observe :
      ClusterScope → ResourceKind → KubernetesResource → Str → Result NormalizationError Observation
  observe scope kind resource observed_at = do
    name ← required (optional_string (prop (js "name") resource.metadata))
    namespace ← required (involved_namespace resource)
    uid ← required (optional_string (prop (js "uid") resource.metadata))
    time ← valid_time (d.parse observed_at)
    ok (observation_of scope kind resource name namespace uid time)

  unfoldable pub normalize_observation :
      ClusterScope → KubernetesResource → Str → Result NormalizationError Observation
  unfolding observe
  normalize_observation scope resource observed_at = elim (kind_in_scope scope resource) [
    | none ↦ err outside_scope
    | some kind ↦ observe scope kind resource observed_at
  ]

  -- `normalizeKind`, and so `normalizePodObservation` and the functions like it.
  unfoldable pub normalize_kind :
      ResourceKind → ClusterScope → KubernetesResource → Str → Result NormalizationError Observation
  normalize_kind kind scope resource observed_at = do
    observation ← normalize_observation scope resource observed_at
    if kind_text observation.kind === kind_text kind then ok observation else err unexpected_kind

-- `collectScopedResources`, over what the adapter listed.
unfoldable pub collect_scoped_resources :
    ClusterScope → List KubernetesResource → Result NormalizationError (List KubernetesResource)
collect_scoped_resources scope resources =
    if any (λ r. not (is_resource_in_scope scope r)) resources
    then err outside_scope
    else ok resources
