-- ===== src/Cluster/Scope.antt =====
-- packages/cluster/src/index.ts: the validation of a scope, `MemoryClusterScopeStore` and
-- `configureClusterScope`. `is_https` is the platform's parser of addresses: whether the text is an
-- absolute address with the protocol https and without a user and a password.
pub mod Approved
use tracegarden.Prelude.{
  Bool, true, false, not, ◌&&◌, ◌||◌, Option, none, some, List, [], ◌∷◌, ◌++◌, map, ltb,
  if◌then◌else◌, is_some, length, Str, js, ◌===◌, trim, truthy,
}
use tracegarden.Prelude.Result.{Result, ok, err}
use tracegarden.Prelude.Value.{
  Value, undefined, array, object, Fields, end, prop, all_strings, no_duplicates, text_or_empty,
}
use tracegarden.Domain.Names.{is_valid_cluster_id, is_valid_namespace}
use tracegarden.Identity.{Capability, cluster_configure, AccessError, require_capability}
use tracegarden.Cluster.{
  ResourceKind, deployment, stateful_set, daemon_set, replica_set, pod, job, cron_job, event,
  ClusterScope,
}

pub data ScopeMessage : Type 0 where
  not_an_object bad_cluster_id bad_name endpoint_required bad_endpoint : ScopeMessage
  not_strings duplicates : ScopeMessage
  invalid_namespace unsupported_kind : Str → ScopeMessage

pub record ScopeIssue : Type 0 where
  pub field_name : Str
  pub message : ScopeMessage

pub data ScopeError : Type 0 where
  invalid_scope : List ScopeIssue → ScopeError
  denied : AccessError → ScopeError

pub record ValidatedInput : Type 0 where
  pub cluster_id : Option Str
  pub name : Str
  pub endpoint : Str
  pub namespaces : List Str
  pub resource_kinds : List ResourceKind

-- `isSupportedResourceKind`, with the kind that is named.
unfoldable pub kind_named : Str → Option ResourceKind
kind_named s =
    if s === js "Deployment"
    then some deployment
    else if s === js "StatefulSet"
    then some stateful_set
    else if s === js "DaemonSet"
    then some daemon_set
    else if s === js "ReplicaSet"
    then some replica_set
    else if s === js "Pod"
    then some pod
    else if s === js "Job"
    then some job
    else if s === js "CronJob"
    then some cron_job
    else if s === js "Event"
    then some event
    else none

-- `record` of this package: an array is an object too, without any of the fields.
abbrev pub scope_fields : Value → Option Fields
scope_fields (object fields) = some fields
scope_fields (array items) = some end
scope_fields _ = none

abbrev pub scope_issue : Bool → Str → ScopeMessage → List ScopeIssue
scope_issue true f m = record { field_name = f; message = m } ∷ []
scope_issue false f m = []

-- The id that is asked for, and whether it passes.
abbrev cluster_id_of : Value → Option Str
cluster_id_of undefined = none
cluster_id_of v = some (trim (text_or_empty v))

abbrev is_good_id : Option Str → Bool
is_good_id none = true
is_good_id (some id) = truthy id && is_valid_cluster_id id

unfoldable pub trimmed_list : Value → Str → Option (List Str) × List ScopeIssue
unfolding all_strings
trimmed_list (array items) f = elim (all_strings items) [
  | none ↦ (none, scope_issue true f not_strings)
  | some texts ↦ (some (map trim texts), [])
]
trimmed_list _ f = (none, scope_issue true f not_strings)

unfoldable pub namespace_issues : List Str → List ScopeIssue
namespace_issues [] = []
namespace_issues (n ∷ rest) =
    scope_issue (not (is_valid_namespace n)) (js "namespaces") (invalid_namespace n)
    ++ namespace_issues rest

unfoldable pub kind_issues : List Str → List ScopeIssue
unfolding kind_named
kind_issues [] = []
kind_issues (k ∷ rest) =
    scope_issue (not (is_some (kind_named k))) (js "resourceKinds") (unsupported_kind k)
    ++ kind_issues rest

-- The kinds that the names stand for.
unfoldable pub kinds_named : List Str → List ResourceKind
unfolding kind_named
kinds_named [] = []
kinds_named (k ∷ rest) =
    let more = kinds_named rest in elim (kind_named k) [ none ↦ more | some kind ↦ kind ∷ more ]

-- The issues of a list that was read.
abbrev list_issues : Option (List Str) → Str → (List Str → List ScopeIssue) → List ScopeIssue
list_issues none f each = []
list_issues (some texts) f each = scope_issue (not (no_duplicates texts)) f duplicates ++ each texts

abbrev conclude :
    Option Str
    → Str
    → Str
    → Option (List Str)
    → Option (List Str)
    → List ScopeIssue
    → Result ScopeError ValidatedInput
conclude id name endpoint (some namespaces) (some kinds) [] = ok (record {
  cluster_id = id;
  name = name;
  endpoint = endpoint;
  namespaces = namespaces;
  resource_kinds = kinds_named kinds;
})
conclude id name endpoint _ _ issues = err (invalid_scope issues)

module _ (is_https : Str → Bool) where
  abbrev endpoint_issues : Str → List ScopeIssue
  endpoint_issues endpoint =
      if truthy endpoint
      then scope_issue (not (is_https endpoint)) (js "endpoint") bad_endpoint
      else scope_issue true (js "endpoint") endpoint_required

  unfoldable pub validate_scope_fields : Fields → Result ScopeError ValidatedInput
  unfolding trimmed_list namespace_issues kind_issues no_duplicates
  validate_scope_fields value =
      let id = cluster_id_of (prop (js "clusterId") value) in
      let i1 = scope_issue (not (is_good_id id)) (js "clusterId") bad_cluster_id in
      let name = trim (text_or_empty (prop (js "name") value)) in
      let i2 = scope_issue (not (truthy name) || ltb 100 (length name)) (js "name") bad_name in
      let endpoint = trim (text_or_empty (prop (js "endpoint") value)) in
      let i3 = endpoint_issues endpoint in
      let (namespaces, i4) = trimmed_list (prop (js "namespaces") value) (js "namespaces") in
      let i5 = list_issues namespaces (js "namespaces") namespace_issues in
      let (kinds, i6) = trimmed_list (prop (js "resourceKinds") value) (js "resourceKinds") in
      let i7 = list_issues kinds (js "resourceKinds") kind_issues in
      conclude id name endpoint namespaces kinds (i1 ++ (i2 ++ (i3 ++ (i4 ++ (i5 ++ (i6 ++ i7))))))

  -- `validateClusterScopeInput`, of which `parseClusterScopeInput` throws the issues.
  unfoldable pub parse_cluster_scope_input : Value → Result ScopeError ValidatedInput
  unfolding validate_scope_fields
  parse_cluster_scope_input input = elim (scope_fields input) [
    | none ↦ err (invalid_scope (scope_issue true (js "scope") not_an_object))
    | some value ↦ validate_scope_fields value
  ]

  abbrev chosen_id : Option ClusterScope → Option Str → Str → Str
  chosen_id (some existing) asked fresh = existing.cluster_id
  chosen_id none (some id) fresh = id
  chosen_id none none fresh = fresh

  unfoldable pub scope_from_input :
      Str → Str → Value → Option ClusterScope → Result ScopeError ClusterScope
  scope_from_input fresh workspace input existing = elim (parse_cluster_scope_input input) [
    | err e ↦ err e
    | ok v ↦ ok (record {
      workspace_id = workspace;
      cluster_id = chosen_id existing v.cluster_id fresh;
      name = v.name;
      endpoint = v.endpoint;
      namespaces = v.namespaces;
      resource_kinds = v.resource_kinds;
    })
  ]

  -- `MemoryClusterScopeStore.get`; the state is the scope that was saved last.
  unfoldable pub get_scope : Str → Option ClusterScope → Option ClusterScope
  get_scope workspace none = none
  get_scope workspace (some scope) = if scope.workspace_id === workspace then some scope else none

  unfoldable pub configure_cluster_scope :
      Str
      → List Capability
      → Str
      → Value
      → Option ClusterScope
      → Result ScopeError ClusterScope × Option ClusterScope
  unfolding get_scope
  configure_cluster_scope fresh held workspace input saved =
      elim (require_capability held cluster_configure) [
        | err e ↦ (err (denied e), saved)
        | ok u ↦ elim (scope_from_input fresh workspace input (get_scope workspace saved)) [
          | err e ↦ (err e, saved)
          | ok scope ↦ (ok scope, some scope)
        ]
      ]
