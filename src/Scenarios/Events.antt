-- ===== src/Scenarios/Events.antt =====
-- The theorems on the timeline at two observations of a pod.
use tracegarden.Prelude.{
  ℕ, ◌+◌, ◌*◌, ◌≡◌, refl, subst, inl, inr, true, false, none, some, List, [], ◌∷◌, ◌++◌, Bool-cases,
  some_inj, length, All, Str, js, ◌===◌, trim,
}
use tracegarden.Prelude.Dict.{get, set, remove}
use tracegarden.Prelude.Value.{is_decimal, is_digit}
use tracegarden.Prelude.Result.{ok}
use tracegarden.Domain.Correlation.{time, SuggestionStatus, rejected}
use tracegarden.Cluster.{Observation, mark_recovery}
use tracegarden.Timeline.Records.{
  Entry, Store, CheckpointInput, ConfirmedLink, Suggestion, new_store,
}
use tracegarden.Timeline.Ingest.{
  put_optional, Ingested, observation_key, checkpoint_key, timeline_entry_for, previous_of,
  latest_from, store_observation, ingest, ingest_all, record_observations_internal,
}
use tracegarden.Timeline.Reviews.{ReviewResult, review_attention_item, unread_attention_count}
use tracegarden.Timeline.Retention.{
  cleanup_retention, cleanup_with, cleanup_before, is_protected, is_candidate, get_retention_policy,
  delete_entries, remove_all, observation_keys,
}
use tracegarden.Timeline.Keyed.{Keyed}
use tracegarden.Timeline.Cleanup.{cleanup_retention-keeps_protected}
use tracegarden.Timeline.Batches.{AreRecordable, are_duplicates, record_observations_internal_again}
use tracegarden.Timeline.History.{
  Call, batch, cleanup, step, AreAllowed, AllSucceed, history-AllSucceed, new_store-IsLinked,
}
use tracegarden.Timeline.Unread.{bit, review_attention_item-unread_attention_count}
use tracegarden.Timeline.Checkpoints.{AreDecimal, NotBehind, put_all, Reached, put_all-Reached}
use tracegarden.Scenarios.Fixtures.{dates, pod_state}

-- A pod that is not ready, and then is.
abbrev observations : List (Str × Observation)
observations = (js "e1", pod_state (js "7") true 1) ∷ (js "e2", pod_state (js "9") false 2) ∷ []

-- The same states under new ids.
abbrev again : List (Str × Observation)
again = (js "e3", pod_state (js "7") true 1) ∷ (js "e4", pod_state (js "9") false 2) ∷ []

abbrev day : ℕ
day = 86400000

-- The first batch, a cleanup after 40 days, and the first state once more.
abbrev calls : List Call
calls =
    batch (5 ∷ []) observations none
    ∷ cleanup (40 * day) (js "w") (some (40 * day))
    ∷ batch (6 ∷ []) again none
    ∷ []

empty_AreRecordable : AreRecordable observations (new_store none)
unfolding new_store ingest store_observation previous_of latest_from get set observation_key
    timeline_entry_for mark_recovery ◌===◌
empty_AreRecordable = (refl, (refl, refl), (refl, (refl, refl), tt))

calls-AreAllowed : AreAllowed dates calls (new_store none)
unfolding new_store ingest_all cleanup_with record_observations_internal step cleanup_retention
    cleanup_before is_protected is_candidate get_retention_policy delete_entries remove_all
    observation_keys remove ingest store_observation previous_of latest_from get set observation_key
    timeline_entry_for mark_recovery trim ◌===◌
calls-AreAllowed = (
  (refl, (refl, refl), (refl, (refl, refl), tt)),
  ((refl, (refl, refl), (refl, (refl, refl), tt)), tt),
)

history-AllSucceed_example : AllSucceed dates calls (new_store none)
history-AllSucceed_example = history-AllSucceed dates none calls calls-AreAllowed

abbrev position : Str → CheckpointInput
position version = record {
  workspace_id = js "w";
  cluster_id = js "c";
  namespace = js "apps";
  resource_kind = js "Pod";
  resource_version = version;
}

record_observations_internal_again_example :
    let at = some (position (js "7")) in
    let s' = (record_observations_internal (5 ∷ []) observations at (new_store none)).1 in
    let second = some (position (js "9")) in
    let r = record_observations_internal (6 ∷ []) again second s' in
    (results : List Ingested) × (r
      ≡ (ok results, record s' { checkpoints = put_optional (6 ∷ []) second s'.checkpoints }))
    × (length results ≡ 2)
    × (are_duplicates results ≡ true)
    × (record_observations_internal (6 ∷ []) again none s' ≡ (ok results, s'))
    × (record_observations_internal (6 ∷ []) again at s' ≡ (ok results, s'))
record_observations_internal_again_example =
    record_observations_internal_again (5 ∷ []) (6 ∷ []) observations again
      (some (position (js "7"))) (some (position (js "9"))) (new_store none) empty_AreRecordable
      (new_store-IsLinked none) refl

abbrev entry : Str → Observation → ℕ → Entry
entry id o n = timeline_entry_for id o n

abbrev link : ConfirmedLink
link = record {
  id = js "l1";
  workspace_id = js "w";
  suggestion_id = js "g1";
  left_entry_id = js "e0";
  right_entry_id = js "e1";
  confirmed_by_member_id = js "m";
  confirmed_at = 3 ∷ [];
}

abbrev suggestion : SuggestionStatus → Suggestion
suggestion status = record {
  id = js "g1";
  workspace_id = js "w";
  left_entry_id = js "e0";
  right_entry_id = js "e1";
  signals = time ∷ [];
  status = status;
  created_at = 2 ∷ [];
  decided_at = none;
  decided_by_member_id = none;
  confirmed_link = none;
}

-- Two entries, of which a confirmed link protects the first.
abbrev timeline : Store
timeline = record {
  observations = [];
  entries =
      (js "e1", entry (js "e1") (pod_state (js "7") true 1) 1)
      ∷ (js "e2", entry (js "e2") (pod_state (js "9") false 2) 2)
      ∷ [];
  next_sequence = 2;
  orders = [];
  next_order = 2;
  checkpoints =
      (
        js "w" ++ (0 ∷ (js "c" ++ (0 ∷ (js "apps" ++ (0 ∷ js "Pod"))))),
        record { input = position (js "9"); updated_at = 5 ∷ [] },
      )
      ∷ [];
  reviews = [];
  suggestions = (js "k", suggestion rejected) ∷ [];
  links = (js "g1", link) ∷ [];
  experiments = [];
  policies = [];
  scope_store = none;
}

timeline_Keyed : Keyed timeline.entries
unfolding get timeline_entry_for ◌===◌
timeline_Keyed = (refl, refl, (refl, refl, tt))

cleanup_retention-keeps_protected_example :
    get (js "e1") (cleanup_retention dates 9 (js "w") (some (40 * day)) timeline).1.entries
    ≡ get (js "e1") timeline.entries
unfolding is_protected ◌===◌
cleanup_retention-keeps_protected_example =
    cleanup_retention-keeps_protected dates 9 (js "w") (some (40 * day)) timeline (js "e1")
      timeline_Keyed refl

review_attention_item-unread_attention_count_example :
    let r = review_attention_item (js "w") (js "m") (js "e1") timeline in
    (x : ReviewResult) × (r.0 ≡ some x)
    × (unread_attention_count (js "w") (js "m") r.1 ≡ x.unread_count)
    × (x.unread_count + bit x.reviewed ≡ unread_attention_count (js "w") (js "m") timeline)
unfolding get timeline_entry_for ◌===◌
review_attention_item-unread_attention_count_example =
    review_attention_item-unread_attention_count (js "w") (js "m") (js "e1") timeline
      (entry (js "e1") (pod_state (js "7") true 1) 1) timeline_Keyed refl refl

timeline_AreDecimal : AreDecimal timeline.checkpoints
unfolding get is_decimal is_digit checkpoint_key
timeline_AreDecimal k p g = elim (Bool-cases (checkpoint_key (position (js "9")) === k)) [
  | inl t ↦ subst (λ q. is_decimal q.input.resource_version ≡ true) (some_inj _ p (rw t at g)) refl
  | inr t ↦ absurd cc (rw t at g)
]

abbrev writes : List (Str × CheckpointInput)
writes = (6 ∷ [], position (js "12")) ∷ (7 ∷ [], position (js "11")) ∷ []

put_all-Reached_example :
    NotBehind timeline.checkpoints (put_all writes timeline.checkpoints)
    × All (λ w. Reached w.1 (put_all writes timeline.checkpoints)) writes
unfolding is_decimal is_digit
put_all-Reached_example =
    put_all-Reached writes timeline.checkpoints (refl, (refl, tt)) timeline_AreDecimal
