-- ===== src/Timeline/Records.antt =====
-- The records of packages/db/src/index.ts and the state of `MemoryObservationStore`. The listeners
-- are left out: a method returns the ids of the entries that it announces.
use tracegarden.Prelude.{ℕ, Bool, Option, List, [], Str}
use tracegarden.Prelude.Dict.{Dict}
use tracegarden.Cluster.{ClusterScope, Observation, AttentionReason}
use tracegarden.Domain.Experiment.{ExperimentRecord, ExperimentError}
use tracegarden.Domain.Correlation.{CorrelationSignal, SuggestionStatus}

pub record ObservationEntry : Type 0 where
  pub cluster_id : Str
  pub attention_item : Bool
  pub attention_reason : Option AttentionReason
  pub recovery_of : Option Str
  pub observation : Observation
  pub attention : Bool
  pub attention_unread : Bool

pub record ExperimentEntry : Type 0 where
  pub cluster_id : Option Str
  pub experiment : ExperimentRecord

pub data Content : Type 0 where
  observed : ObservationEntry → Content
  experiment : ExperimentEntry → Content

-- `StoredTimelineEntry`; the sequence is kept as a number, which the source writes in decimal.
pub record Entry : Type 0 where
  pub id : Str
  pub sequence : ℕ
  pub workspace_id : Str
  pub occurred_at : Str
  pub content : Content

pub record CheckpointInput : Type 0 where
  pub workspace_id : Str
  pub cluster_id : Str
  pub namespace : Str
  pub resource_kind : Str
  pub resource_version : Str

pub record Checkpoint : Type 0 where
  pub input : CheckpointInput
  pub updated_at : Str

pub record ConfirmedLink : Type 0 where
  pub id : Str
  pub workspace_id : Str
  pub suggestion_id : Str
  pub left_entry_id : Str
  pub right_entry_id : Str
  pub confirmed_by_member_id : Str
  pub confirmed_at : Str

pub record Suggestion : Type 0 where
  pub id : Str
  pub workspace_id : Str
  pub left_entry_id : Str
  pub right_entry_id : Str
  pub signals : List CorrelationSignal
  pub status : SuggestionStatus
  pub created_at : Str
  pub decided_at : Option Str
  pub decided_by_member_id : Option Str
  pub confirmed_link : Option ConfirmedLink

pub record RetentionPolicy : Type 0 where
  pub workspace_id : Str
  pub retention_days : ℕ
  pub updated_at : Str

-- `scope` is the scope of the cluster store that the constructor was given, if it was.
pub record Store : Type 0 where
  pub observations : Dict Observation
  pub entries : Dict Entry
  pub next_sequence : ℕ
  pub orders : Dict ℕ
  pub next_order : ℕ
  pub checkpoints : Dict Checkpoint
  pub reviews : List Str
  pub suggestions : Dict Suggestion
  pub links : Dict ConfirmedLink
  pub experiments : Dict ExperimentRecord
  pub policies : Dict RetentionPolicy
  pub scope_store : Option (Option ClusterScope)

pub data TimelineError : Type 0 where
  foreign_cluster outside_scope missing_entry : TimelineError
  decision_identifiers_required retention_workspace_required : TimelineError
  invalid_cleanup_time invalid_cutoff invalid_retention : TimelineError
  foreign_workloads experiment_entry_missing : TimelineError
  experiment_error : ExperimentError → TimelineError
  decision_conflict : SuggestionStatus → TimelineError

unfoldable pub new_store : Option (Option ClusterScope) → Store
new_store scope_store = record {
  observations = [];
  entries = [];
  next_sequence = 0;
  orders = [];
  next_order = 0;
  checkpoints = [];
  reviews = [];
  suggestions = [];
  links = [];
  experiments = [];
  policies = [];
  scope_store = scope_store;
}
