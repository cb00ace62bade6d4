-- ===== src/Cluster/Normalized.antt =====
-- What a normalized observation shows: packages/cluster/src/index.ts, `normalizeObservation`.
use tracegarden.Prelude.{ℕ, ◌≡◌, sym, inl, inr, some, Option-cases, Str, js}
use tracegarden.Prelude.Dates.{Dates}
use tracegarden.Prelude.Result.{ok, err, ok_inj}
use tracegarden.Prelude.Value.{prop}
use tracegarden.Cluster.{ResourceKind, ClusterScope, Observation}
use tracegarden.Cluster.Resources.{KubernetesResource, optional_string}
use tracegarden.Cluster.Normalize.{
  incomplete, bad_timestamp, outside_scope, kind_in_scope, involved_namespace,
  normalize_observation, observe, observation_of,
}

module _ (d : Dates) (scope : ClusterScope) (resource : KubernetesResource)
    (observed_at : Str) where
  -- An accepted resource: its kind, identity and time.
  pub record Observed (o : Observation) : Type 0 where
    pub kind : ResourceKind
    pub name : Str
    pub namespace : Str
    pub uid : Str
    pub time : ℕ
    pub in_scope : kind_in_scope scope resource ≡ some kind
    pub has_namespace : involved_namespace resource ≡ some namespace
    pub at_time : d.parse observed_at ≡ some time
    pub is : o ≡ observation_of d scope kind resource name namespace uid time

  observe-Observed :
      (o : Observation) (kind : ResourceKind)
      → kind_in_scope scope resource ≡ some kind
      → observe d scope kind resource observed_at ≡ ok o
      → Observed o
  unfolding observe
  observe-Observed o kind k h =
      elim (Option-cases (optional_string (prop (js "name") resource.metadata))) [
        | inl e ↦ let bad : err incomplete ≡ ok o = rw e at h in cc
        | inr (name, e) ↦ elim (Option-cases (involved_namespace resource)) [
          | inl e' ↦ let bad : err incomplete ≡ ok o = rw (e, e') at h in cc
          | inr (namespace, e') ↦
              elim (Option-cases (optional_string (prop (js "uid") resource.metadata))) [
                | inl e'' ↦ let bad : err incomplete ≡ ok o = rw (e, e', e'') at h in cc
                | inr (uid, e'') ↦ elim (Option-cases (d.parse observed_at)) [
                  | inl t ↦ let bad : err bad_timestamp ≡ ok o = rw (e, e', e'', t) at h in cc
                  | inr (time, t) ↦
                      let h' : ok (observation_of d scope kind resource name namespace uid time)
                          ≡ ok o =
                        rw (e, e', e'', t) at h in
                      record {
                        kind = kind;
                        name = name;
                        namespace = namespace;
                        uid = uid;
                        time = time;
                        in_scope = k;
                        has_namespace = e';
                        at_time = t;
                        is = sym (ok_inj _ o h');
                      }
                ]
              ]
        ]
      ]

  pub normalize-Observed :
      (o : Observation) → normalize_observation d scope resource observed_at ≡ ok o → Observed o
  unfolding normalize_observation
  normalize-Observed o h = elim (Option-cases (kind_in_scope scope resource)) [
    | inl e ↦ let bad : err outside_scope ≡ ok o = rw (e, normalize_observation) at h in cc
    | inr (kind, e) ↦ observe-Observed o kind e (rw (e, normalize_observation) at h)
  ]
