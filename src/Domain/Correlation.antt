-- ===== src/Domain/Correlation.antt =====
-- packages/domain/src/index.ts: the signals between two timeline entries, and the suggestions made
-- from them.
pub mod Symmetry
pub mod Pairs
use tracegarden.Prelude.{
  ℕ, ◌+◌, ◌-◌, Bool, true, false, not, ◌&&◌, ◌||◌, Option, none, some, List, [], ◌∷◌, ◌++◌, leb,
  ◌==◌, if◌then◌else◌, any, Str, ◌===◌, ltb_str,
}
use tracegarden.Prelude.Dates.{Dates}
use tracegarden.Prelude.Dict.{Dict, get}
use tracegarden.Prelude.Value.{no_duplicates}
use tracegarden.Domain.Experiment.{ExperimentWorkload}

pub data CorrelationSignal : Type 0 where
  time ownership label revision : CorrelationSignal

pub record CorrelationOwner : Type 0 where
  pub kind : Str
  pub name : Str
  pub uid : Option Str

pub record CorrelationObservation : Type 0 where
  pub kind : Str
  pub name : Str
  pub namespace : Str
  pub cluster_id : Str
  pub source_identity : Str
  pub owner_references : List CorrelationOwner
  pub labels : Dict Str
  pub revision : Option Str

pub record CorrelationExperiment : Type 0 where
  pub workloads : List ExperimentWorkload
  pub git_revision : Option Str

pub record CorrelationEntry : Type 0 where
  pub id : Str
  pub workspace_id : Str
  pub occurred_at : Str
  pub observation : Option CorrelationObservation
  pub experiment : Option CorrelationExperiment

unfoldable pub workload_matches_observation : ExperimentWorkload → CorrelationObservation → Bool
workload_matches_observation w o =
    w.cluster_id === o.cluster_id
    && w.namespace === o.namespace
    && ((w.kind === o.kind && w.name === o.name)
        || any (λ owner. owner.kind === w.kind && owner.name === w.name) o.owner_references)

-- What stands behind the first colon, or all of the text if there is none.
abbrev after_colon : Str → Option Str
after_colon [] = none
after_colon (c ∷ s) = let rest = after_colon s in if c == b':' then some s else rest

unfoldable pub observation_uid : CorrelationObservation → Str
observation_uid o = elim (after_colon o.source_identity) [ none ↦ o.source_identity | some s ↦ s ]

abbrev same_uid : Option Str → Str → Bool
same_uid none s = false
same_uid (some u) s = u === s

-- An owner reference of the first observation names the second.
unfoldable pub owned_by : CorrelationObservation → CorrelationObservation → Bool
unfolding observation_uid
owned_by a b =
    any
      (λ owner.
        same_uid owner.uid (observation_uid b) || (owner.kind === b.kind && owner.name === b.name))
      a.owner_references

abbrev pub same_workload : ExperimentWorkload → ExperimentWorkload → Bool
same_workload a b =
    a.cluster_id === b.cluster_id
    && a.namespace === b.namespace
    && a.kind === b.kind
    && a.name === b.name

abbrev pub observed_by : CorrelationExperiment → CorrelationObservation → Bool
observed_by e o = any (λ w. workload_matches_observation w o) e.workloads

abbrev pub share_workload : CorrelationExperiment → CorrelationExperiment → Bool
share_workload a b = any (λ v. any (λ w. same_workload v w) b.workloads) a.workloads

-- The cases in the order of the source: two observations, then an experiment and an observation on
-- either side, then two experiments.
abbrev pub ownership_of :
    Option CorrelationObservation
    → Option CorrelationObservation
    → Option CorrelationExperiment
    → Option CorrelationExperiment
    → Bool
ownership_of (some lo) (some ro) le re =
    lo.cluster_id === ro.cluster_id && (owned_by lo ro || owned_by ro lo)
ownership_of none (some ro) (some le) re = observed_by le ro
ownership_of (some lo) none le (some re) = observed_by re lo
ownership_of none none (some le) (some re) = share_workload le re
ownership_of _ _ _ _ = false

unfoldable pub ownership_signal : CorrelationEntry → CorrelationEntry → Bool
unfolding owned_by workload_matches_observation
ownership_signal l r = ownership_of l.observation r.observation l.experiment r.experiment

-- `labels[key] === value`.
abbrev pub has_label : Dict Str → Str × Str → Bool
has_label labels (k, v) = same_uid (get k labels) v

abbrev pub shares_label : Dict Str → Dict Str → Bool
shares_label l r = any (has_label r) l

abbrev pub label_of : Option CorrelationObservation → Option CorrelationObservation → Bool
label_of (some lo) (some ro) = shares_label lo.labels ro.labels
label_of _ _ = false

unfoldable pub label_signal : CorrelationEntry → CorrelationEntry → Bool
label_signal l r = label_of l.observation r.observation

-- A revision that is given and not empty.
abbrev pub given : Option Str → List Str
given none = []
given (some []) = []
given (some (c ∷ s)) = (c ∷ s) ∷ []

abbrev pub observed_revision : CorrelationEntry → Option Str
observed_revision e = elim e.observation [ none ↦ none | some o ↦ o.revision ]

abbrev pub experiment_revision : CorrelationEntry → Option Str
experiment_revision e = elim e.experiment [ none ↦ none | some x ↦ x.git_revision ]

unfoldable pub revision_signal : CorrelationEntry → CorrelationEntry → Bool
unfolding no_duplicates
revision_signal l r = not (
    no_duplicates (
      given (observed_revision l)
      ++ (given (observed_revision r)
          ++ (given (experiment_revision l) ++ given (experiment_revision r)))))

-- 24 hours.
abbrev pub time_window : ℕ
time_window = 86400000

-- `Math.abs(a - b)`.
abbrev pub distance : ℕ → ℕ → ℕ
distance a b = (a - b) + (b - a)

abbrev pub within_window : Option ℕ → Option ℕ → Bool
within_window (some a) (some b) = leb (distance a b) time_window
within_window _ _ = false

abbrev pub signal_if : Bool → CorrelationSignal → List CorrelationSignal
signal_if true s = s ∷ []
signal_if false s = []

pub data SuggestionStatus : Type 0 where
  pending confirmed rejected : SuggestionStatus

-- A candidate, before it gets an id and the time of its creation.
pub record Candidate : Type 0 where
  pub workspace_id : Str
  pub left_entry_id : Str
  pub right_entry_id : Str
  pub signals : List CorrelationSignal

module _ (d : Dates) where
  unfoldable pub time_signal : CorrelationEntry → CorrelationEntry → Bool
  time_signal l r = within_window (d.parse l.occurred_at) (d.parse r.occurred_at)

  unfoldable pub correlation_signals_between :
      CorrelationEntry → CorrelationEntry → List CorrelationSignal
  correlation_signals_between l r =
      if l.id === r.id || not (l.workspace_id === r.workspace_id)
      then []
      else signal_if (time_signal l r) time
        ++ (signal_if (ownership_signal l r) ownership
            ++ (signal_if (label_signal l r) label ++ signal_if (revision_signal l r) revision))

  unfoldable pub candidate_of : CorrelationEntry → CorrelationEntry → Candidate
  candidate_of l r = record {
    workspace_id = l.workspace_id;
    left_entry_id = if ltb_str l.id r.id then l.id else r.id;
    right_entry_id = if ltb_str l.id r.id then r.id else l.id;
    signals = correlation_signals_between l r;
  }

  abbrev has_signals : List CorrelationSignal → Bool
  has_signals [] = false
  has_signals (s ∷ rest) = true

  -- The inner loop: one entry with each of those after it.
  unfoldable pub candidates_with : CorrelationEntry → List CorrelationEntry → List Candidate
  unfolding candidate_of
  candidates_with l [] = []
  candidates_with l (r ∷ rest) =
      let more = candidates_with l rest in
      if has_signals (correlation_signals_between l r) then candidate_of l r ∷ more else more

  unfoldable pub suggest_correlation_candidates : List CorrelationEntry → List Candidate
  unfolding candidates_with
  suggest_correlation_candidates [] = []
  suggest_correlation_candidates (l ∷ rest) =
      candidates_with l rest ++ suggest_correlation_candidates rest
