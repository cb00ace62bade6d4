-- ===== src/Cluster/Scope/Approved.antt =====
-- What a configured scope satisfies.
use tracegarden.Prelude.{
  ◌≤◌, ◌≡◌, refl, sym, subst, ◌⊎◌, inl, inr, Bool, true, not, ◌||◌, Option, none, some, List, [],
  ◌∷◌, ◌++◌, arith, ltb, Option-cases, length, all, Str, js, ===_refl, trim, truthy,
}
use tracegarden.Prelude.Result.{ok, err, ok_inj, Result-cases}
use tracegarden.Prelude.Value.{Value, Fields, no_duplicates, prop, text_or_empty}
use tracegarden.Domain.Names.{is_valid_namespace}
use tracegarden.Identity.{Capability, cluster_configure, has_capability, require_capability}
use tracegarden.Cluster.{ClusterScope}
use tracegarden.Cluster.Scope.{
  cluster_id_of, is_good_id, bad_cluster_id, bad_name, ScopeError, denied, ScopeIssue,
  ValidatedInput, conclude, list_issues, scope_issue, namespace_issues, kind_issues,
  endpoint_issues, validate_scope_fields, parse_cluster_scope_input, scope_from_input, get_scope,
  configure_cluster_scope, scope_fields, trimmed_list,
}

module _ (is_https : Str → Bool) where
  -- The name has 1 to 100 code units, the endpoint passes the platform's parser, and the namespaces
  -- are valid and distinct.
  pub record IsApproved (name endpoint : Str) (namespaces : List Str) : Type 0 where
    pub name_given : truthy name ≡ true
    pub name_bound : length name ≤ 100
    pub endpoint_good : is_https endpoint ≡ true
    pub namespaces_valid : all is_valid_namespace namespaces ≡ true
    pub namespaces_distinct : no_duplicates namespaces ≡ true

  append-nil_parts : {A : Type 0} (xs ys : List A) → xs ++ ys ≡ [] → (xs ≡ []) × (ys ≡ [])
  append-nil_parts [] ys h = (refl, h)
  append-nil_parts (x ∷ xs) ys h = absurd cc

  namespace_issues-nil :
      (ns : List Str) → namespace_issues ns ≡ [] → all is_valid_namespace ns ≡ true
  unfolding namespace_issues
  namespace_issues-nil [] h = refl
  namespace_issues-nil (n ∷ rest) h =
      let (a, b) =
        append-nil_parts (scope_issue (not (is_valid_namespace n)) _ _) (namespace_issues rest) h in
      ground (arith, a, namespace_issues-nil rest b)

  conclude-ok :
      (id : Option Str) (name endpoint : Str) (namespaces kinds : Option (List Str))
      (issues : List ScopeIssue) (v : ValidatedInput)
      → conclude id name endpoint namespaces kinds issues ≡ ok v
      → (issues ≡ []) × (namespaces ≡ some v.namespaces) × (name ≡ v.name) × (endpoint ≡ v.endpoint)
  conclude-ok id name endpoint (some ns) (some ks) [] v h =
      let e = ok_inj _ v h in rw (sym e) (refl, refl, refl, refl)
  conclude-ok id name endpoint (some ns) (some ks) (i ∷ issues) v h = absurd cc
  conclude-ok id name endpoint (some ns) none issues v h = absurd cc
  conclude-ok id name endpoint none ks issues v h = absurd cc

  list_issues-nil :
      (ns : List Str) (f : Str)
      → list_issues (some ns) f namespace_issues ≡ []
      → (no_duplicates ns ≡ true) × (all is_valid_namespace ns ≡ true)
  list_issues-nil ns f h =
      let (a, b) =
        append-nil_parts (scope_issue (not (no_duplicates ns)) _ _) (namespace_issues ns) h in
      (ground (arith, a), namespace_issues-nil ns b)

  name-nil :
      (name : Str)
      → scope_issue (not (truthy name) || ltb 100 (length name)) (js "name") bad_name ≡ []
      → (truthy name ≡ true) × (length name ≤ 100)
  name-nil name h = ground arith

  endpoint-nil :
      (endpoint : Str) → endpoint_issues is_https endpoint ≡ [] → is_https endpoint ≡ true
  endpoint-nil endpoint h = ground arith

  validate_scope_fields-IsApproved :
      (value : Fields) (v : ValidatedInput)
      → validate_scope_fields is_https value ≡ ok v
      → IsApproved v.name v.endpoint v.namespaces
  unfolding validate_scope_fields
  validate_scope_fields-IsApproved value v h =
      let id = cluster_id_of (prop (js "clusterId") value) in
      let i1 = scope_issue (not (is_good_id id)) (js "clusterId") bad_cluster_id in
      let name = trim (text_or_empty (prop (js "name") value)) in
      let i2 = scope_issue (not (truthy name) || ltb 100 (length name)) (js "name") bad_name in
      let endpoint = trim (text_or_empty (prop (js "endpoint") value)) in
      let i3 = endpoint_issues is_https endpoint in
      let (namespaces, i4) = trimmed_list (prop (js "namespaces") value) (js "namespaces") in
      let i5 = list_issues namespaces (js "namespaces") namespace_issues in
      let (kinds, i6) = trimmed_list (prop (js "resourceKinds") value) (js "resourceKinds") in
      let i7 = list_issues kinds (js "resourceKinds") kind_issues in
      let (none_left, ns, nm, ep) =
        conclude-ok id name endpoint namespaces kinds
          (i1 ++ (i2 ++ (i3 ++ (i4 ++ (i5 ++ (i6 ++ i7)))))) v h in
      let (h1, r1) = append-nil_parts i1 (i2 ++ (i3 ++ (i4 ++ (i5 ++ (i6 ++ i7))))) none_left in
      let (h2, r2) = append-nil_parts i2 (i3 ++ (i4 ++ (i5 ++ (i6 ++ i7)))) r1 in
      let (h3, r3) = append-nil_parts i3 (i4 ++ (i5 ++ (i6 ++ i7))) r2 in
      let (h4, r4) = append-nil_parts i4 (i5 ++ (i6 ++ i7)) r3 in
      let (h5, r5) = append-nil_parts i5 (i6 ++ i7) r4 in
      let texts = name-nil name h2 in
      let (d, a) = list_issues-nil v.namespaces (js "namespaces") (rw ns at h5) in
      record {
        name_given = subst (λ t. truthy t ≡ true) nm texts.0;
        name_bound = subst (λ t. length t ≤ 100) nm texts.1;
        endpoint_good = subst (λ t. is_https t ≡ true) ep (endpoint-nil endpoint h3);
        namespaces_valid = a;
        namespaces_distinct = d;
      }

  parse_cluster_scope_input-IsApproved :
      (x : Value) (v : ValidatedInput)
      → parse_cluster_scope_input is_https x ≡ ok v
      → IsApproved v.name v.endpoint v.namespaces
  unfolding parse_cluster_scope_input
  parse_cluster_scope_input-IsApproved x v h = elim (Option-cases (scope_fields x)) [
    | inl n ↦ absurd cc (rw (n, parse_cluster_scope_input) at h)
    | inr (fs, r) ↦ validate_scope_fields-IsApproved fs v (rw (r, parse_cluster_scope_input) at h)
  ]

  require_capability-has :
      (held : List Capability)
      → {u : Unit {0}} → require_capability held cluster_configure ≡ ok u
      → has_capability held cluster_configure ≡ true
  unfolding require_capability
  require_capability-has held h = ground (arith, h)

  get_own :
      (workspace : Str) (scope : ClusterScope)
      → scope.workspace_id ≡ workspace
      → get_scope is_https workspace (some scope) ≡ some scope
  unfolding get_scope
  get_own workspace scope w = rw (w, ===_refl workspace) refl

  -- What a scope takes from a request and from the one before.
  abbrev Derives : Str → Option ClusterScope → ClusterScope → Type 0
  Derives workspace existing scope =
      (scope.workspace_id ≡ workspace)
      × IsApproved scope.name scope.endpoint scope.namespaces
      × ((old : ClusterScope) → existing ≡ some old → scope.cluster_id ≡ old.cluster_id)

  scope_from_input-Derives :
      (fresh workspace : Str) (input : Value) (existing : Option ClusterScope)
      (scope : ClusterScope)
      → scope_from_input is_https fresh workspace input existing ≡ ok scope
      → Derives workspace existing scope
  unfolding scope_from_input
  scope_from_input-Derives fresh workspace input existing scope h =
      elim (Result-cases (parse_cluster_scope_input is_https input)) [
        | inl (e, q) ↦ absurd cc (rw (q, scope_from_input) at h)
        | inr (v, q) ↦
            subst (Derives workspace existing) (ok_inj _ scope (rw (q, scope_from_input) at h))
              (refl, parse_cluster_scope_input-IsApproved input v q, λ old g. rw g refl)
      ]

  -- A member may configure the scope only with the capability for it; the scope that is saved is then
  -- what the workspace gets, its name, endpoint and namespaces have passed every check, and a cluster
  -- that was configured before keeps its id, whatever id the request asks for. A request that fails
  -- saves nothing.
  pub configure_cluster_scope-IsApproved :
      (fresh : Str) (held : List Capability) (workspace : Str) (input : Value)
      (saved : Option ClusterScope)
      → let r = configure_cluster_scope is_https fresh held workspace input saved in
        ((e : ScopeError) × (r ≡ (err e, saved)))
        ⊎ ((scope : ClusterScope) × (r ≡ (ok scope, some scope))
            × (has_capability held cluster_configure ≡ true)
            × (get_scope is_https workspace (some scope) ≡ some scope)
            × IsApproved scope.name scope.endpoint scope.namespaces
            × ((old : ClusterScope)
                → get_scope is_https workspace saved ≡ some old
                → scope.cluster_id ≡ old.cluster_id))
  unfolding configure_cluster_scope
  configure_cluster_scope-IsApproved fresh held workspace input saved =
      elim (Result-cases (require_capability held cluster_configure)) [
        | inl (e, c) ↦ inl (denied e, rw (c, configure_cluster_scope) refl)
        | inr (u, c) ↦
            elim (Result-cases (
              scope_from_input is_https fresh workspace input
                (get_scope is_https workspace saved))) [
                  | inl (e, q) ↦ inl (e, rw (c, configure_cluster_scope, q) refl)
                  | inr (scope, q) ↦
                      let (w, p, id) =
                        scope_from_input-Derives fresh workspace input
                          (get_scope is_https workspace saved) scope q in
                      inr (
                        scope,
                        rw (c, configure_cluster_scope, q) refl,
                        require_capability-has held c,
                        get_own workspace scope w,
                        p,
                        id,
                      )
                ]
      ]
