-- ===== src/Cluster.antt =====
-- packages/cluster/src/index.ts: the scope of observation, normalized observations, recovery and the
-- order of resource versions.
pub mod Versions
pub mod Scope
pub mod Resources
pub mod Normalize
pub mod Normalized
pub mod Limits
use Prim.Native.Nat.{compare, Ordering}
use tracegarden.Prelude.{
  ℕ, Bool, true, false, not, ◌&&◌, ◌||◌, Option, none, some, List, [], ◌∷◌, if◌then◌else◌, Str, js,
  ◌===◌, trim,
}
use tracegarden.Prelude.Dict.{Dict}
use tracegarden.Prelude.Value.{is_decimal, decimal}

pub data ResourceKind : Type 0 where
  deployment stateful_set daemon_set replica_set pod job cron_job event : ResourceKind

abbrev pub kind_text : ResourceKind → Str
kind_text deployment = js "Deployment"
kind_text stateful_set = js "StatefulSet"
kind_text daemon_set = js "DaemonSet"
kind_text replica_set = js "ReplicaSet"
kind_text pod = js "Pod"
kind_text job = js "Job"
kind_text cron_job = js "CronJob"
kind_text event = js "Event"

pub record ClusterScope : Type 0 where
  pub workspace_id : Str
  pub cluster_id : Str
  pub name : Str
  pub endpoint : Str
  pub namespaces : List Str
  pub resource_kinds : List ResourceKind

pub data Classification : Type 0 where
  change attention_needed recovery : Classification

pub data AttentionReason : Type 0 where
  condition_failed pod_not_ready deployment_replicas_unavailable : AttentionReason
  statefulset_replicas_not_ready daemonset_nodes_not_ready : AttentionReason
  replicaset_replicas_not_ready job_failed cronjob_suspended event_warning : AttentionReason

-- The facts that an observation of each kind carries. Replica counts come in the order of the source.
pub data Facts : Type 0 where
  replicas : ResourceKind → List (Option ℕ) → Facts
  stateful_set_facts : List (Option ℕ) → Option Str → Option Str → Facts
  pod_facts : Option Str → Option Bool → Facts
  job_facts : List (Option ℕ) → Option Str → Facts
  cron_job_facts : Option Str → Option Bool → Option ℕ → List (Option Str) → Facts
  event_facts : Option Str → Option ℕ → List (Option Str) → Facts

-- `NormalizedOwnerReference`.
pub record OwnerReference : Type 0 where
  pub kind : Str
  pub name : Str
  pub uid : Option Str
  pub controller : Bool

pub record Observation : Type 0 where
  pub workspace_id : Str
  pub cluster_id : Str
  pub source_identity : Str
  pub source_key : Str
  pub kind : ResourceKind
  pub uid : Str
  pub name : Str
  pub namespace : Str
  pub resource_version : Option Str
  pub classification : Classification
  pub attention : Bool
  pub attention_reason : Option AttentionReason
  pub recovery_of : Option Str
  pub reason : Option Str
  pub message : Option Str
  pub owner_references : List OwnerReference
  pub revision : Option Str
  pub labels : Dict Str
  pub observed_at : Str
  pub facts : Facts

-- `markRecovery`: what needs no attention, after a state of the same source that did.
unfoldable pub mark_recovery : Observation → Option Observation → Observation
mark_recovery o none = o
mark_recovery o (some previous) =
    if not previous.attention || o.attention
    then o
    else record o { classification = recovery; recovery_of = some previous.source_key }

-- `compareResourceVersions`: versions that are no numbers are not ordered, and compare as equal.
unfoldable pub compare_resource_versions : Str → Str → Ordering
unfolding is_decimal decimal
compare_resource_versions left right =
    if is_decimal (trim left) && is_decimal (trim right)
    then compare (decimal (trim left)) (decimal (trim right))
    else Ordering.eq

abbrev pub is_greater : Ordering → Bool
is_greater Ordering.gt = true
is_greater _ = false

-- `greatestResourceVersion`, over the versions that the resources have.
unfoldable pub greatest_from : Option Str → List (Option Str) → Option Str
unfolding compare_resource_versions
greatest_from best [] = best
greatest_from best (none ∷ rest) = greatest_from best rest
greatest_from none (some v ∷ rest) = greatest_from (some v) rest
greatest_from (some b) (some v ∷ rest) =
    greatest_from (some (if is_greater (compare_resource_versions v b) then v else b)) rest

unfoldable pub greatest_resource_version : List (Option Str) → Option Str
unfolding greatest_from
greatest_resource_version versions = greatest_from none versions

-- packages/db/src/index.ts: `checkpointVersionShouldReplace`.
unfoldable pub should_replace : Str → Str → Bool
unfolding is_decimal
should_replace candidate previous =
    if candidate === previous
    then false
    else if is_decimal candidate && is_decimal previous
    then is_greater (compare_resource_versions candidate previous)
    else true

-- apps/collector/src/main.ts: `shouldAdvanceResourceVersion`.
unfoldable pub should_advance : Str → Option Str → Bool
unfolding is_decimal
should_advance candidate none = true
should_advance candidate (some []) = true
should_advance candidate (some (c ∷ current)) =
    if candidate === (c ∷ current)
    then false
    else if is_decimal candidate && is_decimal (c ∷ current)
    then is_greater (compare_resource_versions candidate (c ∷ current))
    else true
