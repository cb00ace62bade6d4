-- ===== src/Scenarios/Experiments.antt =====
-- The theorems on experiments and correlation at one experiment and one observation.
use tracegarden.Prelude.{
  ℕ, ◌≡◌, refl, ◌↔◌, true, false, none, some, List, [], ◌∷◌, ◌++◌, Str, js, ◌===◌, trim, In,
}
use tracegarden.Prelude.Dict.{get}
use tracegarden.Prelude.Value.{
  Value, string, array, object, nil, cons, end, field, prop, all_strings, no_duplicates, is_digit,
  split_on,
}
use tracegarden.Prelude.Result.{ok}
use tracegarden.Domain.Names.{
  is_valid_cluster_id, is_valid_namespace, is_kind, is_valid_resource_name, is_alphanumeric,
  is_dns_label, is_label_char, is_lower, is_upper,
}
use tracegarden.Domain.Experiment.{
  ExperimentInput, ExperimentRecord, ExperimentWorkload, draft, active, parse_experiment_input,
  validate, checked, non_empty_string, is_text, string_list, workload_items, workloads_of,
  workload_source, workload_key, is_valid_workload, state_of, state_named, git_revision_of,
}
use tracegarden.Domain.Experiment.Acceptance.{IsAccepted, parse-IsAccepted}
use tracegarden.Domain.Lifecycle.{
  create_experiment_record, update_experiment_record, merge, is_valid_transition,
}
use tracegarden.Domain.Lifecycle.Updates.{Evolves, update_all, create-update_all-Evolves}
use tracegarden.Domain.Correlation.{
  CorrelationEntry, correlation_signals_between, candidate_of, suggest_correlation_candidates,
  ownership_signal, label_signal, revision_signal, time_signal, owned_by,
  workload_matches_observation, observation_uid,
}
use tracegarden.Domain.Correlation.Pairs.{Before, related, suggest_iff}
use tracegarden.Timeline.Records.{new_store}
use tracegarden.Timeline.Recording.{store_experiment, update_experiment}
use tracegarden.Timeline.Mirrors.{
  Mirrors, misses_entry, store_experiment-Mirrors, update_experiment-Mirrors,
}
use tracegarden.Scenarios.Fixtures.{dates}

abbrev request : Value
request = object (
    field (js "hypothesis") (string (js "more memory")) (
      field (js "change") (string (js "512Mi")) (
        field (js "observation") (string (js "restarts")) (
          field (js "conclusion") (string [])
            (field (js "workloads") (array (cons (string (js "c|apps|Pod|api")) nil)) end)))))

abbrev workload : ExperimentWorkload
workload = record { cluster_id = js "c"; namespace = js "apps"; kind = js "Pod"; name = js "api" }

abbrev input : ExperimentInput
input = record {
  hypothesis = js "more memory";
  change = js "512Mi";
  observation = js "restarts";
  conclusion = [];
  state = draft;
  tags = [];
  workloads = workload ∷ [];
  git_revision = none;
}

abbrev experiment : ExperimentRecord
experiment = record {
  id = js "x";
  workspace_id = js "w";
  timeline_entry_id = js "e2";
  created_by_member_id = js "m";
  input = input;
  created_at = 1 ∷ [];
  updated_at = 1 ∷ [];
}

request_parsed : parse_experiment_input request ≡ ok input
unfolding parse_experiment_input validate checked non_empty_string is_text string_list all_strings
    no_duplicates workload_items workloads_of workload_source workload_key is_valid_workload
    state_of state_named git_revision_of prop split_on is_valid_cluster_id is_valid_namespace
    is_kind is_valid_resource_name is_alphanumeric is_dns_label is_label_char is_lower is_upper
    is_digit trim ◌===◌
request_parsed = refl

parse-IsAccepted_example : IsAccepted input
parse-IsAccepted_example = parse-IsAccepted request input request_parsed

request_created :
    create_experiment_record (js "x") (js "w") (js "m") (js "e2") (1 ∷ []) request ≡ ok experiment
unfolding create_experiment_record
request_created = rw (request_parsed, create_experiment_record) refl

-- To active, with an empty hypothesis, and back to draft: the first is accepted.
abbrev start : Value
start = object (field (js "state") (string (js "active")) end)

abbrev started : ExperimentRecord
started = record experiment { input = record input { state = active }; updated_at = 2 ∷ [] }

start_accepted : update_experiment_record experiment start (2 ∷ []) ≡ ok started
unfolding update_experiment_record merge is_valid_transition validate checked non_empty_string
    is_text string_list all_strings no_duplicates workload_items workloads_of workload_source
    workload_key is_valid_workload state_of state_named git_revision_of prop split_on
    is_valid_cluster_id is_valid_namespace is_kind is_valid_resource_name is_alphanumeric
    is_dns_label is_label_char is_lower is_upper is_digit trim ◌===◌
start_accepted = refl

abbrev starting : List (Value × Str)
starting = (start, 2 ∷ []) ∷ []

abbrev refused_later : List (Value × Str)
refused_later =
    (object (field (js "hypothesis") (string []) end), 3 ∷ [])
    ∷ (object (field (js "state") (string (js "draft")) end), 4 ∷ [])
    ∷ []

create-update_all-Evolves_example :
    Evolves experiment (update_all experiment starting)
    × Evolves (update_all experiment starting) (update_all experiment (starting ++ refused_later))
create-update_all-Evolves_example =
    create-update_all-Evolves (js "x") (js "w") (js "m") (js "e2") (1 ∷ []) request experiment
      starting refused_later request_created

-- The pod of the experiment, an hour after it.
abbrev pod_entry : CorrelationEntry
pod_entry = record {
  id = js "e1";
  workspace_id = js "w";
  occurred_at = 3600000 ∷ [];
  observation = some (record {
    kind = js "Pod";
    name = js "api";
    namespace = js "apps";
    cluster_id = js "c";
    source_identity = js "c:u1";
    owner_references = [];
    labels = (js "app", js "api") ∷ [];
    revision = none;
  });
  experiment = none;
}

abbrev experiment_entry : CorrelationEntry
experiment_entry = record {
  id = js "e2";
  workspace_id = js "w";
  occurred_at = 1 ∷ [];
  observation = none;
  experiment = some (record { workloads = workload ∷ []; git_revision = none });
}

pod_entry-related : related dates pod_entry experiment_entry ≡ true
unfolding correlation_signals_between ownership_signal label_signal revision_signal time_signal
    owned_by workload_matches_observation observation_uid no_duplicates ◌===◌
pod_entry-related = refl

suggest_iff_example :
    let entries = pod_entry ∷ experiment_entry ∷ [] in
    let c = candidate_of dates pod_entry experiment_entry in
    In c (suggest_correlation_candidates dates entries) ↔ (
      (l : CorrelationEntry) × (r : CorrelationEntry) × Before l r entries
      × (related dates l r ≡ true)
      × (c ≡ candidate_of dates l r))
suggest_iff_example =
    suggest_iff dates (candidate_of dates pod_entry experiment_entry)
      (pod_entry ∷ experiment_entry ∷ [])

empty-Mirrors : Mirrors (new_store none)
unfolding new_store get
empty-Mirrors = record { mirrored = λ id x h. absurd cc }

abbrev fresh_ids : Str → ℕ → Str
fresh_ids workspace n = b'g' ∷ n ∷ workspace

stored-Mirrors : Mirrors (store_experiment experiment (new_store none))
unfolding new_store get
stored-Mirrors = store_experiment-Mirrors experiment (new_store none) refl refl empty-Mirrors

update_experiment-Mirrors_example :
    let r =
      update_experiment dates fresh_ids
        (2 ∷ [])
        (js "w")
        (js "x")
        start
        (store_experiment experiment (new_store none)) in
    Mirrors r.1 × (misses_entry r.0 ≡ false)
update_experiment-Mirrors_example =
    update_experiment-Mirrors dates fresh_ids (2 ∷ []) (js "w") (js "x") start
      (store_experiment experiment (new_store none)) stored-Mirrors
