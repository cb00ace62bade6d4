-- ===== src/Scenarios/Resources.antt =====
-- The theorems on the normalization of resources at a small Pod.
use tracegarden.Prelude.{◌≤◌, ◌≡◌, refl, [], ◌∷◌, length, js}
use tracegarden.Prelude.Result.{ok}
use tracegarden.Prelude.Value.{string, object, end, field}
use tracegarden.Cluster.{pod, deployment, ClusterScope, Observation}
use tracegarden.Cluster.Resources.{KubernetesResource}
use tracegarden.Cluster.Normalize.{normalize_observation, observation_of, kind_in_scope}
use tracegarden.Cluster.Limits.{
  AreKeptLabels, IsWithin, HasReasonLimit, normalize_observation-IsBounded,
}
use tracegarden.Scenarios.Fixtures.{dates}

abbrev apps : ClusterScope
apps = record {
  workspace_id = js "w";
  cluster_id = js "c";
  name = js "main";
  endpoint = js "https://k8s";
  namespaces = js "apps" ∷ [];
  resource_kinds = deployment ∷ pod ∷ [];
}

-- A Pod that has failed, with a label.
abbrev failed_pod : KubernetesResource
failed_pod = record {
  kind = js "Pod";
  metadata = field (js "name") (string (js "api")) (
      field (js "namespace") (string (js "apps")) (
        field (js "uid") (string (js "u1"))
          (field (js "labels") (object (field (js "app") (string (js "api")) end)) end)));
  others = field (js "status") (object (field (js "phase") (string (js "Failed")) end)) end;
}

abbrev seen : Observation
seen = observation_of dates apps pod failed_pod (js "api") (js "apps") (js "u1") 7

seen_now : normalize_observation dates apps failed_pod (7 ∷ []) ≡ ok seen
unfolding normalize_observation kind_in_scope
seen_now = refl

normalize_observation-IsBounded_example :
    AreKeptLabels seen.labels
    × (length seen.owner_references ≤ 16)
    × IsWithin 2048 seen.message
    × HasReasonLimit seen.kind seen.reason
normalize_observation-IsBounded_example =
    normalize_observation-IsBounded dates apps failed_pod (7 ∷ []) seen seen_now
