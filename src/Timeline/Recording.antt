-- ===== src/Timeline/Recording.antt =====
-- `recordObservations` and `recordObservationsAndCheckpoint` of packages/db/src/index.ts, and its
-- `createExperiment` and `updateExperiment`.
use tracegarden.Prelude.{
  ℕ, ◌+◌, Bool, true, false, ◌&&◌, Option, none, some, List, [], ◌∷◌, if◌then◌else◌, any, all, Str,
  ◌===◌,
}
use tracegarden.Prelude.Dates.{Dates}
use tracegarden.Prelude.Dict.{get, set}
use tracegarden.Prelude.Value.{Value}
use tracegarden.Prelude.Result.{Result, ok, err}
use tracegarden.Cluster.{Observation}
use tracegarden.Domain.Experiment.{ExperimentRecord, ExperimentWorkload}
use tracegarden.Domain.Lifecycle.{create_experiment_record, update_experiment_record}
use tracegarden.Timeline.Records.{
  Entry, Content, observed, experiment, CheckpointInput, Store, TimelineError, foreign_workloads,
  experiment_entry_missing, experiment_error,
}
use tracegarden.Timeline.Ingest.{
  Ingested, record_observations_internal, validate_configured_cluster,
  validate_observation_ownership,
}
use tracegarden.Timeline.Decisions.{refresh_correlation_suggestions}

abbrev pub Reply : Type 0 → Type 0
Reply A = Result TimelineError A × Store

-- The distinct workspaces of a batch, without those that were seen before.
unfoldable pub workspaces_from : List Str → List (Str × Observation) → List Str
workspaces_from seen [] = []
workspaces_from seen ((id, o) ∷ rest) =
    let old = workspaces_from seen rest in
    let new = workspaces_from (o.workspace_id ∷ seen) rest in
    if any (λ w. w === o.workspace_id) seen then old else o.workspace_id ∷ new

abbrev check_position : Option CheckpointInput → Store → Result TimelineError (Unit {0})
check_position none s = ok tt
check_position (some c) s =
    validate_configured_cluster c.workspace_id c.cluster_id c.namespace c.resource_kind s

-- The Cluster of a Workspace is the one of every workload, where a scope store is there.
unfoldable pub validate_experiment_clusters :
    Str → List ExperimentWorkload → Store → Result TimelineError (Unit {0})
validate_experiment_clusters workspace [] s = ok tt
validate_experiment_clusters workspace (w ∷ ws) s = elim s.scope_store [
  | none ↦ ok tt
  | some none ↦ err foreign_workloads
  | some (some scope) ↦
      if scope.workspace_id === workspace && all (λ v. v.cluster_id === scope.cluster_id) (w ∷ ws)
      then ok tt
      else err foreign_workloads
]

abbrev first_cluster : List ExperimentWorkload → Option Str
first_cluster [] = none
first_cluster (w ∷ ws) = some w.cluster_id

abbrev pub content_of : ExperimentRecord → Content
content_of x = experiment (record { cluster_id = first_cluster x.input.workloads; experiment = x })

-- The new experiment with its entry.
unfoldable pub store_experiment : ExperimentRecord → Store → Store
store_experiment x s = record s {
  next_sequence = s.next_sequence + 1;
  experiments = set x.id x s.experiments;
  entries =
      set x.timeline_entry_id
        (record {
          id = x.timeline_entry_id;
          sequence = s.next_sequence + 1;
          workspace_id = x.workspace_id;
          occurred_at = x.created_at;
          content = content_of x;
        })
        s.entries;
}

abbrev pub is_experiment : Entry → Bool
is_experiment e = elim e.content [ observed x ↦ false | experiment x ↦ true ]

-- The changed experiment, in its entry too.
unfoldable pub replace_experiment : Str → ExperimentRecord → Entry → Store → Store
replace_experiment id x e s = record s {
  experiments = set id x s.experiments;
  entries = set x.timeline_entry_id (record e { content = content_of x }) s.entries;
}

module _ (d : Dates) (ids : Str → ℕ → Str) where
  unfoldable pub refresh_all : Str → List Str → Store → Store
  refresh_all now [] s = s
  refresh_all now (w ∷ ws) s =
      refresh_all now ws (refresh_correlation_suggestions d (ids w) now w s)

  abbrev refreshed : Str → List (Str × Observation) → Reply (List Ingested) → Reply (List Ingested)
  refreshed now observations (err e, s) = (err e, s)
  refreshed now observations (ok results, s) =
      (ok results, refresh_all now (workspaces_from [] observations) s)

  -- Without a checkpoint this is `recordObservations`, and with one the other method.
  unfoldable pub record_observations :
      Str → List (Str × Observation) → Option CheckpointInput → Store → Reply (List Ingested)
  unfolding refresh_all workspaces_from
  record_observations now observations checkpoint s =
      elim (validate_observation_ownership observations s) [
        | err e ↦ (err e, s)
        | ok u ↦ elim (check_position checkpoint s) [
          | err e ↦ (err e, s)
          | ok v ↦
              refreshed now observations
                (record_observations_internal now observations checkpoint s)
        ]
      ]

  unfoldable pub create_experiment :
      Str → Str → Str → Str → Str → Value → Store → Reply ExperimentRecord
  create_experiment id entry_id now workspace member_id input s =
      elim (create_experiment_record id workspace member_id entry_id now input) [
        | err e ↦ (err (experiment_error e), s)
        | ok x ↦ elim (validate_experiment_clusters workspace x.input.workloads s) [
          | err e ↦ (err e, s)
          | ok u ↦ (
            ok x,
            refresh_correlation_suggestions d (ids workspace) now workspace (store_experiment x s),
          )
        ]
      ]

  abbrev pub replaced :
      Str → Str → Str → ExperimentRecord → Store → Option Entry → Reply (Option ExperimentRecord)
  replaced id now workspace x s none = (err experiment_entry_missing, s)
  replaced id now workspace x s (some e) =
      if is_experiment e
      then (
        ok (some x),
        refresh_correlation_suggestions d (ids workspace) now workspace
            (replace_experiment id x e s),
      )
      else (err experiment_entry_missing, s)

  unfoldable pub update_experiment :
      Str → Str → Str → Value → Store → Reply (Option ExperimentRecord)
  update_experiment now workspace id input s = elim (get id s.experiments) [
    | none ↦ (ok none, s)
    | some current ↦
        if current.workspace_id === workspace
        then elim (update_experiment_record current input now) [
          | err e ↦ (err (experiment_error e), s)
          | ok x ↦ elim (validate_experiment_clusters workspace x.input.workloads s) [
            | err e ↦ (err e, s)
            | ok u ↦ replaced id now workspace x s (get current.timeline_entry_id s.entries)
          ]
        ]
        else (ok none, s)
  ]
