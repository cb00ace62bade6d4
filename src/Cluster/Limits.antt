-- ===== src/Cluster/Limits.antt =====
-- How much of a resource an observation keeps: packages/cluster/src/index.ts, `boundedString`,
-- `selectedLabels` and `normalizedOwners`.
use tracegarden.Prelude.{
  ℕ, suc, ◌≤◌, ◌≡◌, inl, inr, Bool, true, false, not, ◌||◌, Option, none, some, [], ◌∷◌, arith, leb,
  leb→le, Bool-cases, Option-cases, or_else, length, All, length-take, Str, js, ◌===◌,
}
use tracegarden.Prelude.Dates.{Dates}
use tracegarden.Prelude.Dict.{Dict, set}
use tracegarden.Prelude.Result.{ok}
use tracegarden.Prelude.Value.{Value, array, Fields, end, field, prop}
use tracegarden.Cluster.{
  ResourceKind, deployment, stateful_set, daemon_set, replica_set, pod, job, cron_job, event,
  ClusterScope, Observation,
}
use tracegarden.Cluster.Resources.{
  KubernetesResource, optional_string, bounded_string, object_value, select_labels, selected_labels,
  put_label, is_useful, owners_from, normalized_owners, prop_in, prop_of, resource_status,
}
use tracegarden.Cluster.Normalize.{
  normalize_observation, observation_of, reason_for, message_for, condition_facts, fact,
}
use tracegarden.Cluster.Normalized.{normalize-Observed}

-- A text that may be missing has at most so many units.
abbrev pub IsWithin : ℕ → Option Str → Type 0
IsWithin limit none = Unit
IsWithin limit (some s) = length s ≤ limit

bounded_string-IsWithin : (value : Value) (limit : ℕ) → IsWithin limit (bounded_string value limit)
unfolding bounded_string
bounded_string-IsWithin value limit = elim (Option-cases (optional_string value)) [
  | inl e ↦ rw (e, bounded_string) tt
  | inr (s, e) ↦ rw (e, bounded_string) (omega (arith, length-take limit s))
]

or_else-IsWithin :
    (limit : ℕ) (a b : Option Str)
    → IsWithin limit a
    → IsWithin limit b
    → IsWithin limit (or_else a b)
or_else-IsWithin limit none b h h' = h'
or_else-IsWithin limit (some s) b h h' = h

fact-IsWithin :
    (key : Str) (limit : ℕ) (kind : ResourceKind) (r : KubernetesResource)
    → IsWithin limit (fact key limit kind r)
fact-IsWithin key limit kind r =
    or_else-IsWithin limit _ _ (bounded_string-IsWithin (prop_in key (resource_status r)) limit)
      (bounded_string-IsWithin (prop_of key (condition_facts kind r)) limit)

-- Only the reason of a Pod has no bound.
abbrev pub HasReasonLimit : ResourceKind → Option Str → Type 0
HasReasonLimit pod reason = Unit
HasReasonLimit _ reason = IsWithin 256 reason

reason_for-IsWithin :
    (kind : ResourceKind) (r : KubernetesResource) → HasReasonLimit kind (reason_for kind r)
unfolding reason_for
reason_for-IsWithin pod r = tt
reason_for-IsWithin event r = bounded_string-IsWithin (prop (js "reason") r.others) 256
reason_for-IsWithin deployment r = fact-IsWithin (js "reason") 256 deployment r
reason_for-IsWithin stateful_set r = fact-IsWithin (js "reason") 256 stateful_set r
reason_for-IsWithin daemon_set r = fact-IsWithin (js "reason") 256 daemon_set r
reason_for-IsWithin replica_set r = fact-IsWithin (js "reason") 256 replica_set r
reason_for-IsWithin job r = fact-IsWithin (js "reason") 256 job r
reason_for-IsWithin cron_job r = fact-IsWithin (js "reason") 256 cron_job r

message_for-IsWithin :
    (kind : ResourceKind) (r : KubernetesResource) → IsWithin 2048 (message_for kind r)
unfolding message_for
message_for-IsWithin event r =
    or_else-IsWithin 2048 _ _ (bounded_string-IsWithin (prop (js "note") r.others) 2048)
      (bounded_string-IsWithin (prop (js "message") r.others) 2048)
message_for-IsWithin deployment r = fact-IsWithin (js "message") 2048 deployment r
message_for-IsWithin stateful_set r = fact-IsWithin (js "message") 2048 stateful_set r
message_for-IsWithin daemon_set r = fact-IsWithin (js "message") 2048 daemon_set r
message_for-IsWithin replica_set r = fact-IsWithin (js "message") 2048 replica_set r
message_for-IsWithin pod r = fact-IsWithin (js "message") 2048 pod r
message_for-IsWithin job r = fact-IsWithin (js "message") 2048 job r
message_for-IsWithin cron_job r = fact-IsWithin (js "message") 2048 cron_job r

-- A label that is kept: its key is useful, its value short.
abbrev pub IsKeptLabel : Str × Str → Type 0
IsKeptLabel (key, value) = (is_useful key ≡ true) × (length value ≤ 256)

abbrev pub AreKeptLabels : Dict Str → Type 0
AreKeptLabels labels = All IsKeptLabel labels × (length labels ≤ 32)

set-IsKeptLabel :
    (key value : Str) (labels : Dict Str)
    → IsKeptLabel (key, value)
    → All IsKeptLabel labels
    → All IsKeptLabel (set key value labels) × (length (set key value labels) ≤ suc (length labels))
unfolding set
set-IsKeptLabel key value [] p h = ((p, tt), omega arith)
set-IsKeptLabel key value ((k, v) ∷ labels) p h =
    let (kept, size) = set-IsKeptLabel key value labels p h.1 in
    elim (Bool-cases (k === key)) [
      | inl e ↦ rw e (((h.0.0, p.1), h.1), omega arith)
      | inr e ↦ rw e ((h.0, kept), omega (arith, size))
    ]

or-left : (a b : Bool) → (a || not b) ≡ false → a ≡ false
or-left a b h = ground arith

or-right : (a b : Bool) → (a || not b) ≡ false → b ≡ true
or-right a b h = ground arith

below : (n m : ℕ) → leb 32 n ≡ false → m ≤ suc n → m ≤ 32
below n m h h' = ground arith

put_label-AreKept :
    (key : Str) (value : Option Str) (labels : Dict Str)
    → (leb 32 (length labels) || not (is_useful key)) ≡ false
    → AreKeptLabels labels
    → AreKeptLabels (put_label key value labels)
put_label-AreKept key none labels t h = h
put_label-AreKept key (some value) labels t h = elim (Bool-cases (leb (length value) 256)) [
  | inr e ↦ rw e h
  | inl e ↦
      let useful : is_useful key ≡ true = or-right _ _ t in
      let room : leb 32 (length labels) ≡ false = or-left _ _ t in
      let (kept, size) = set-IsKeptLabel key value labels (useful, leb→le _ _ e) h.0 in
      rw e (kept, below _ _ room size)
]

select_labels-AreKept :
    (raw : Fields) (labels : Dict Str)
    → AreKeptLabels labels
    → AreKeptLabels (select_labels raw labels)
unfolding select_labels
select_labels-AreKept end labels h = h
select_labels-AreKept (field key value raw) labels h =
    elim (Bool-cases (leb 32 (length labels) || not (is_useful key))) [
      | inl e ↦ rw e (select_labels-AreKept raw labels h)
      | inr e ↦ rw e (
          select_labels-AreKept raw (put_label key (optional_string value) labels)
            (put_label-AreKept key (optional_string value) labels e h))
    ]

selected_labels-AreKept : (value : Value) → AreKeptLabels (selected_labels value)
unfolding selected_labels
selected_labels-AreKept value = elim (Option-cases (object_value value)) [
  | inl e ↦ rw (e, selected_labels) (tt, omega arith)
  | inr (labels, e) ↦ rw (e, selected_labels) (select_labels-AreKept labels [] (tt, omega arith))
]

length-normalized_owners : (value : Value) → length (normalized_owners value) ≤ 16
unfolding normalized_owners
length-normalized_owners (array items) = omega (arith, length-take 16 (owners_from items))
length-normalized_owners value = omega arith

-- An observation keeps at most 32 labels, all of useful keys with values of at most 256 units, at most
-- 16 owners, a message of at most 2,048 units and, unless it is of a Pod, a reason of at most 256.
pub normalize_observation-IsBounded :
    (d : Dates) (scope : ClusterScope) (resource : KubernetesResource) (observed_at : Str)
    (o : Observation)
    → normalize_observation d scope resource observed_at ≡ ok o
    → AreKeptLabels o.labels
      × (length o.owner_references ≤ 16)
      × IsWithin 2048 o.message
      × HasReasonLimit o.kind o.reason
unfolding observation_of
normalize_observation-IsBounded d scope resource observed_at o h =
    let n = normalize-Observed d scope resource observed_at o h in
    rw (n.is) (
      selected_labels-AreKept _,
      length-normalized_owners _,
      message_for-IsWithin n.kind resource,
      reason_for-IsWithin n.kind resource,
    )
