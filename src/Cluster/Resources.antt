-- ===== src/Cluster/Resources.antt =====
-- Resources of the cluster and what is abnormal about them: packages/cluster/src/index.ts, from
-- `KubernetesResource` to `abnormalReason`. A resource has a kind and metadata, and other fields that
-- may hold anything.
use tracegarden.Prelude.{
  ℕ, ◌+◌, Bool, true, false, not, ◌&&◌, ◌||◌, Option, none, some, List, [], ◌∷◌, ◌++◌, map, ltb,
  leb, if◌then◌else◌, is_some, or_else, length, take, any, find, Str, js, ◌===◌, trim, truthy,
}
use tracegarden.Prelude.Dict.{Dict, set}
use tracegarden.Prelude.Value.{
  Value, undefined, boolean, whole, string, array, object, Items, nil, cons, Fields, end, field,
  prop, max_safe_integer, is_decimal, decimal,
}
use tracegarden.Cluster.{
  ResourceKind, deployment, stateful_set, daemon_set, replica_set, pod, job, cron_job, event,
  AttentionReason, condition_failed, pod_not_ready, deployment_replicas_unavailable,
  statefulset_replicas_not_ready, daemonset_nodes_not_ready, replicaset_replicas_not_ready,
  job_failed, cronjob_suspended, event_warning, OwnerReference,
}

pub record KubernetesResource : Type 0 where
  pub kind : Str
  pub metadata : Fields
  pub others : Fields

-- `optionalString`.
unfoldable pub optional_string : Value → Option Str
unfolding trim
optional_string (string s) = if truthy (trim s) then some (trim s) else none
optional_string _ = none

-- `boundedString`.
unfoldable pub bounded_string : Value → ℕ → Option Str
unfolding optional_string
bounded_string value limit = elim (optional_string value) [
  | none ↦ none
  | some s ↦ some (take limit s)
]

abbrev pub safe_number : ℕ → Option ℕ
safe_number n = if leb n max_safe_integer then some n else none

-- `numberValue`.
unfoldable pub number_value : Value → Option ℕ
unfolding trim is_decimal decimal
number_value (whole n) = safe_number n
number_value (string s) = if is_decimal (trim s) then safe_number (decimal (trim s)) else none
number_value _ = none

-- `booleanValue`.
abbrev pub boolean_value : Value → Option Bool
boolean_value (boolean b) = some b
boolean_value _ = none

-- `objectValue`: an array is an object too, without any of the fields.
abbrev pub object_value : Value → Option Fields
object_value (object fields) = some fields
object_value (array items) = some end
object_value _ = none

-- `object?.key`, of an object that may be missing.
abbrev pub prop_of : Str → Option Fields → Value
prop_of key none = undefined
prop_of key (some fields) = prop key fields

-- `value?.key`: what is no object has none of the keys.
abbrev pub prop_in : Str → Value → Value
prop_in key value = prop_of key (object_value value)

-- `value === text` for a literal text.
abbrev pub equals_text : Value → Str → Bool
equals_text (string s) text = s === text
equals_text _ text = false

abbrev pub is_true : Value → Bool
is_true (boolean b) = b
is_true _ = false

abbrev useful_labels : List Str
useful_labels =
    js "app"
    ∷ js "component"
    ∷ js "version"
    ∷ js "app.kubernetes.io/name"
    ∷ js "app.kubernetes.io/instance"
    ∷ js "app.kubernetes.io/version"
    ∷ js "pod-template-hash"
    ∷ js "controller-revision-hash"
    ∷ []

abbrev pub is_useful : Str → Bool
is_useful key = any (λ k. k === key) useful_labels

abbrev pub put_label : Str → Option Str → Dict Str → Dict Str
put_label key none selected = selected
put_label key (some value) selected =
    if leb (length value) 256 then set key value selected else selected

-- The loop of `selectedLabels`.
unfoldable pub select_labels : Fields → Dict Str → Dict Str
unfolding optional_string ◌===◌ set
select_labels end selected = selected
select_labels (field key raw labels) selected = select_labels labels (
    if leb 32 (length selected) || not (is_useful key)
    then selected
    else put_label key (optional_string raw) selected)

unfoldable pub selected_labels : Value → Dict Str
unfolding select_labels
selected_labels value = elim (object_value value) [
  | none ↦ []
  | some labels ↦ select_labels labels []
]

-- An owner with a kind and a name.
abbrev pub owner_from : Option Fields → List OwnerReference
owner_from owner = elim (optional_string (prop_of (js "kind") owner)) [
  | none ↦ []
  | some kind ↦ elim (optional_string (prop_of (js "name") owner)) [
    | none ↦ []
    | some name ↦
        record {
          kind = kind;
          name = name;
          uid = optional_string (prop_of (js "uid") owner);
          controller = is_true (prop_of (js "controller") owner);
        }
        ∷ []
  ]
]

unfoldable pub owners_from : Items → List OwnerReference
unfolding optional_string prop
owners_from nil = []
owners_from (cons item items) = owner_from (object_value item) ++ owners_from items

unfoldable pub normalized_owners : Value → List OwnerReference
unfolding owners_from
normalized_owners (array items) = take 16 (owners_from items)
normalized_owners _ = []

unfoldable pub objects_of : Items → List Fields
objects_of nil = []
objects_of (cons item items) = elim (object_value item) [
  | none ↦ objects_of items
  | some fields ↦ fields ∷ objects_of items
]

abbrev pub resource_status : KubernetesResource → Value
resource_status resource = prop (js "status") resource.others

abbrev pub resource_spec : KubernetesResource → Value
resource_spec resource = prop (js "spec") resource.others

-- `conditions`.
abbrev pub items_objects : Value → List Fields
items_objects (array items) = objects_of items
items_objects _ = []

unfoldable pub conditions : KubernetesResource → List Fields
unfolding objects_of prop
conditions resource = items_objects (prop_in (js "conditions") (resource_status resource))

-- `condition`.
unfoldable pub condition : KubernetesResource → Str → Option Fields
unfolding conditions ◌===◌
condition resource type =
    find (λ item. equals_text (prop (js "type") item) type) (conditions resource)

-- The test of `abnormalCondition`, on the kind `Job` and the type and status of a condition.
unfoldable pub is_abnormal : Bool → Value → Value → Bool
unfolding ◌===◌
is_abnormal is_job type status =
    if equals_text type (js "Failed") || equals_text type (js "Degraded")
    then equals_text status (js "True") || equals_text status (js "Unknown")
    else if equals_text type (js "Available") || equals_text type (js "Progressing")
    then equals_text status (js "False")
      || equals_text status (js "Unknown")
      || (is_job && equals_text type (js "Failed") && equals_text status (js "True"))
    else false

abbrev is_job : ResourceKind → Bool
is_job job = true
is_job _ = false

unfoldable pub abnormal_condition : ResourceKind → KubernetesResource → Option Fields
unfolding conditions is_abnormal
abnormal_condition kind resource =
    find (λ c. is_abnormal (is_job kind) (prop (js "type") c) (prop (js "status") c))
      (conditions resource)

-- `value.toLowerCase() === "warning"`: none but the ASCII letters has a letter of this word as its
-- lower case.
abbrev is_warning : Option Str → Bool
is_warning none = false
is_warning (some s) = map (λ c. if leb b'A' c && leb c b'Z' then c + 32 else c) s === js "warning"

abbrev waiting_reasons : List Str
waiting_reasons =
    js "CrashLoopBackOff"
    ∷ js "ImagePullBackOff"
    ∷ js "ErrImagePull"
    ∷ js "CreateContainerConfigError"
    ∷ []

abbrev is_waiting : Option Str → Bool
is_waiting none = false
is_waiting (some s) = any (λ r. r === s) waiting_reasons

-- `a ?? n` on numbers.
abbrev pub number_or : ℕ → Option ℕ → ℕ
number_or n none = n
number_or n (some m) = m

abbrev less : Option ℕ → ℕ → Bool
less none n = false
less (some m) n = ltb m n

abbrev if_so : Bool → AttentionReason → Option AttentionReason
if_so test reason = if test then some reason else none

abbrev pub status_number : KubernetesResource → Str → Option ℕ
status_number resource key = number_value (prop_in key (resource_status resource))

abbrev pub spec_number : KubernetesResource → Str → Option ℕ
spec_number resource key = number_value (prop_in key (resource_spec resource))

-- What is abnormal about a resource of a kind, apart from its conditions.
unfoldable pub kind_reason : ResourceKind → KubernetesResource → Option AttentionReason
unfolding condition number_value optional_string
kind_reason pod r =
    let ready = condition r (js "Ready") in
    let reason =
      or_else (optional_string (prop_in (js "reason") (resource_status r)))
        (optional_string (prop_of (js "reason") ready)) in
    if_so
      (is_waiting reason
        || equals_text (prop_in (js "phase") (resource_status r)) (js "Failed")
        || equals_text (prop_in (js "phase") (resource_status r)) (js "Unknown")
        || equals_text (prop_of (js "status") ready) (js "False"))
      pod_not_ready
kind_reason deployment r =
    if_so
      (less (status_number r (js "availableReplicas")) (number_or 1 (spec_number r (js "replicas")))
        || ltb 0 (number_or 0 (status_number r (js "unavailableReplicas"))))
      deployment_replicas_unavailable
kind_reason stateful_set r =
    if_so
      (less (status_number r (js "readyReplicas")) (number_or 1 (spec_number r (js "replicas"))))
      statefulset_replicas_not_ready
kind_reason daemon_set r =
    let desired = number_or 0 (status_number r (js "desiredNumberScheduled")) in
    if_so (ltb 0 desired && ltb (number_or 0 (status_number r (js "numberReady"))) desired)
      daemonset_nodes_not_ready
kind_reason replica_set r =
    let desired = number_or 0 (spec_number r (js "replicas")) in
    if_so (ltb 0 desired && ltb (number_or 0 (status_number r (js "readyReplicas"))) desired)
      replicaset_replicas_not_ready
kind_reason job r =
    if_so
      (ltb 0 (number_or 0 (status_number r (js "failed")))
        && ltb (number_or 0 (status_number r (js "succeeded")))
            (number_or 1 (spec_number r (js "completions"))))
      job_failed
kind_reason cron_job r =
    if_so (is_true (prop_in (js "suspend") (resource_spec r))) cronjob_suspended
kind_reason event r = none

unfoldable pub abnormal_reason : ResourceKind → KubernetesResource → Option AttentionReason
unfolding abnormal_condition kind_reason
abnormal_reason event r =
    if_so (is_warning (optional_string (prop (js "type") r.others))) event_warning
abnormal_reason kind r =
    if is_some (abnormal_condition kind r) then some condition_failed else kind_reason kind r
