-- ===== src/Timeline/Ingest.antt =====
-- `recordObservationsInternal` of packages/db/src/index.ts. The copies of the maps are the maps of a
-- store that is passed along, and of which the counters alone survive an exception, as they are
-- counted in place.
use tracegarden.Prelude.{
  ℕ, ◌+◌, Bool, true, false, ◌&&◌, Option, none, some, List, [], ◌∷◌, ◌++◌, ltb, if◌then◌else◌, any,
  find, Str, ◌===◌,
}
use tracegarden.Prelude.Dict.{Dict, get, set, values}
use tracegarden.Prelude.Result.{Result, ok, err}
use tracegarden.Cluster.{ClusterScope, Observation, kind_text, mark_recovery, should_replace}
use tracegarden.Timeline.Records.{
  observed, experiment, Entry, CheckpointInput, Checkpoint, Store, TimelineError, foreign_cluster,
  outside_scope, missing_entry,
}

-- The texts with NULs between them.
unfoldable pub observation_key : Observation → Str
observation_key o = o.workspace_id ++ (0 ∷ (o.cluster_id ++ (0 ∷ o.source_key)))

unfoldable pub checkpoint_key : CheckpointInput → Str
checkpoint_key c =
    c.workspace_id ++ (0 ∷ (c.cluster_id ++ (0 ∷ (c.namespace ++ (0 ∷ c.resource_kind)))))

-- `timelineEntryFor`.
unfoldable pub timeline_entry_for : Str → Observation → ℕ → Entry
timeline_entry_for id o sequence = record {
  id = id;
  sequence = sequence;
  workspace_id = o.workspace_id;
  occurred_at = o.observed_at;
  content = observed (record {
    cluster_id = o.cluster_id;
    attention_item = o.attention;
    attention_reason = o.attention_reason;
    recovery_of = o.recovery_of;
    observation = o;
    attention = o.attention;
    attention_unread = false;
  });
}

-- The entry that the source looks for where the observation is there.
abbrev pub shows : Observation → Entry → Bool
shows o e = elim e.content [
  | observed x ↦
      x.observation.source_key === o.source_key
      && e.workspace_id === o.workspace_id
      && x.cluster_id === o.cluster_id
  | experiment x ↦ false
]

abbrev same_source : Observation → Observation → Bool
same_source o c =
    c.workspace_id === o.workspace_id
    && c.cluster_id === o.cluster_id
    && c.source_identity === o.source_identity

abbrev order_of : Dict ℕ → Str → ℕ
order_of orders k = elim (get k orders) [ none ↦ 0 | some n ↦ n ]

-- The head of the stable sort by falling order: the first of those with the greatest order.
abbrev latest_with : Option (ℕ × Observation) → ℕ → Observation → Option (ℕ × Observation)
latest_with none n c = some (n, c)
latest_with (some (m, b)) n c = if ltb m n then some (n, c) else some (m, b)

unfoldable pub latest_from :
    Observation → Dict ℕ → Option (ℕ × Observation) → Dict Observation → Option (ℕ × Observation)
latest_from o orders best [] = best
latest_from o orders best ((k, c) ∷ rest) =
    latest_from o orders (if same_source o c then latest_with best (order_of orders k) c else best)
      rest

unfoldable pub previous_of : Observation → Store → Option Observation
unfolding latest_from
previous_of o s = elim (latest_from o s.orders none s.observations) [
  | none ↦ none
  | some (n, c) ↦ some c
]

pub record Ingested : Type 0 where
  pub observation : Observation
  pub entry : Entry
  pub duplicate : Bool

-- A new observation gets its entry, its place in the sequence and in the order of ingestion.
unfoldable pub store_observation : Str → Observation → Store → Ingested × Store
unfolding timeline_entry_for
store_observation id o s =
    let stored = mark_recovery o (previous_of o s) in
    let entry = timeline_entry_for id stored (s.next_sequence + 1) in
    (
      record { observation = stored; entry = entry; duplicate = false },
      record s {
        observations = set (observation_key o) stored s.observations;
        entries = set id entry s.entries;
        orders = set (observation_key o) (s.next_order + 1) s.orders;
        next_sequence = s.next_sequence + 1;
        next_order = s.next_order + 1;
      },
    )

abbrev pub found_again : Observation → Option Entry → Store → Result TimelineError Ingested × Store
found_again existing none s = (err missing_entry, s)
found_again existing (some entry) s =
    (ok (record { observation = existing; entry = entry; duplicate = true }), s)

-- One round of the loop.
unfoldable pub ingest : Str → Observation → Store → Result TimelineError Ingested × Store
ingest id o s = elim (get (observation_key o) s.observations) [
  | some existing ↦ found_again existing (find (shows o) (values s.entries)) s
  | none ↦ let (result, s') = store_observation id o s in (ok result, s')
]

abbrev pub cons_result :
    Ingested
    → Result TimelineError (List Ingested) × Store
    → Result TimelineError (List Ingested) × Store
cons_result x (ok rest, s) = (ok (x ∷ rest), s)
cons_result x (err e, s) = (err e, s)

-- The loop over the observations, each with the id that its entry would get.
unfoldable pub ingest_all :
    List (Str × Observation) → Store → Result TimelineError (List Ingested) × Store
ingest_all [] s = (ok [], s)
ingest_all ((id, o) ∷ rest) s =
    let (r, s') = ingest id o s in
    let later = ingest_all rest s' in elim r [ ok x ↦ cons_result x later | err e ↦ (err e, s') ]

-- The position of a collection moves on, if the version may replace the one that is there.
unfoldable pub put_checkpoint : Str → CheckpointInput → Dict Checkpoint → Dict Checkpoint
put_checkpoint now c checkpoints = elim (get (checkpoint_key c) checkpoints) [
  | none ↦ set (checkpoint_key c) (record { input = c; updated_at = now }) checkpoints
  | some previous ↦
      if should_replace c.resource_version previous.input.resource_version
      then set (checkpoint_key c) (record { input = c; updated_at = now }) checkpoints
      else checkpoints
]

abbrev pub put_optional : Str → Option CheckpointInput → Dict Checkpoint → Dict Checkpoint
put_optional now none checkpoints = checkpoints
put_optional now (some c) checkpoints = put_checkpoint now c checkpoints

-- An exception drops the copies, but not the two counters.
abbrev pub commit :
    Str
    → Option CheckpointInput
    → Store
    → Result TimelineError (List Ingested) × Store
    → Result TimelineError (List Ingested) × Store
commit now checkpoint before (err e, s) =
    (err e, record before { next_sequence = s.next_sequence; next_order = s.next_order })
commit now checkpoint before (ok results, s) =
    (ok results, record s { checkpoints = put_optional now checkpoint s.checkpoints })

unfoldable pub record_observations_internal :
    Str
    → List (Str × Observation)
    → Option CheckpointInput
    → Store
    → Result TimelineError (List Ingested) × Store
record_observations_internal now observations checkpoint s =
    commit now checkpoint s (ingest_all observations s)

-- The cluster of a workspace, with the namespace and the kind that it must approve.
abbrev approves : Option ClusterScope → Str → Str → Str → Str → Result TimelineError (Unit {0})
approves none workspace cluster namespace kind = err foreign_cluster
approves (some scope) workspace cluster namespace kind =
    if scope.workspace_id === workspace && scope.cluster_id === cluster
    then if any (λ n. n === namespace) scope.namespaces
        && any (λ k. kind_text k === kind) scope.resource_kinds
      then ok tt
      else err outside_scope
    else err foreign_cluster

-- `validateConfiguredCluster`; without a cluster store nothing is checked.
unfoldable pub validate_configured_cluster :
    Str → Str → Str → Str → Store → Result TimelineError (Unit {0})
validate_configured_cluster workspace cluster namespace kind s = elim s.scope_store [
  | none ↦ ok tt
  | some scope ↦ approves scope workspace cluster namespace kind
]

unfoldable pub validate_observation_ownership :
    List (Str × Observation) → Store → Result TimelineError (Unit {0})
validate_observation_ownership [] s = ok tt
validate_observation_ownership ((id, o) ∷ rest) s =
    let later = validate_observation_ownership rest s in
    elim (validate_configured_cluster o.workspace_id o.cluster_id o.namespace (kind_text o.kind)
      s) [ err e ↦ err e | ok u ↦ later ]
