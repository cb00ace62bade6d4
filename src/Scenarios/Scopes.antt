-- ===== src/Scenarios/Scopes.antt =====
-- The theorem on scopes at a request for two namespaces.
use tracegarden.Prelude.{◌≡◌, refl, ◌⊎◌, Bool, true, none, some, take, Str, js, ◌===◌, trim}
use tracegarden.Prelude.Value.{prop, Value, string, array, object, nil, cons, end, field}
use tracegarden.Prelude.Result.{is_ok, ok, err}
use tracegarden.Identity.{
  require_capability, owner, capabilities_for_role, has_capability, cluster_configure,
}
use tracegarden.Domain.Names.{is_valid_namespace}
use tracegarden.Cluster.{ClusterScope}
use tracegarden.Cluster.Scope.{
  scope_from_input, parse_cluster_scope_input, ScopeError, get_scope, configure_cluster_scope,
}
use tracegarden.Cluster.Scope.Approved.{IsApproved, configure_cluster_scope-IsApproved}

-- Whether the text starts as an address with https does.
abbrev is_https : Str → Bool
is_https s = take 8 s === js "https://"

abbrev request : Value
request = object (
    field (js "name") (string (js "Home")) (
      field (js "endpoint") (string (js "https://kube")) (
        field (js "namespaces") (array (cons (string (js "apps")) (cons (string (js "jobs")) nil)))
          (field (js "resourceKinds") (array (cons (string (js "Pod")) nil)) end))))

configure_cluster_scope-IsApproved_example :
    let r =
      configure_cluster_scope is_https
        (js "c1")
        (capabilities_for_role owner)
        (js "w")
        request
        none in
    ((e : ScopeError) × (r ≡ (err e, none)))
    ⊎ ((scope : ClusterScope) × (r ≡ (ok scope, some scope))
        × (has_capability (capabilities_for_role owner) cluster_configure ≡ true)
        × (get_scope is_https (js "w") (some scope) ≡ some scope)
        × IsApproved is_https scope.name scope.endpoint scope.namespaces
        × ((old : ClusterScope)
            → get_scope is_https (js "w") none ≡ some old
            → scope.cluster_id ≡ old.cluster_id))
configure_cluster_scope-IsApproved_example =
    configure_cluster_scope-IsApproved is_https (js "c1") (capabilities_for_role owner) (js "w")
      request none

-- The request is accepted.
request_accepted :
    is_ok
      (configure_cluster_scope is_https
        (js "c1")
        (capabilities_for_role owner)
        (js "w")
        request
        none).0
    ≡ true
unfolding configure_cluster_scope require_capability capabilities_for_role scope_from_input
    parse_cluster_scope_input prop ◌===◌ trim is_valid_namespace
request_accepted = refl
