-- ===== src/Scenarios/Choices.antt =====
-- The theorems on decisions and policies in a store with one suggestion.
use tracegarden.Prelude.Result.{ok}
use tracegarden.Prelude.{
  ℕ, ◌≡◌, refl, sym, ap, subst, true, false, none, some, [], ◌∷◌, ◌++◌, Str, js, ◌===◌, ltb_str,
  trim,
}
use tracegarden.Prelude.Dict.{get, set}
use tracegarden.Prelude.Value.{no_duplicates}
use tracegarden.Domain.Correlation.{
  suggest_correlation_candidates, candidates_with, candidate_of, correlation_signals_between,
  time_signal, ownership_signal, owned_by, observation_uid, label_signal, revision_signal, time,
  pending,
}
use tracegarden.Timeline.Records.{Store, Suggestion, RetentionPolicy, new_store}
use tracegarden.Timeline.Decisions.{
  offer_all, offer, with_ids, correlation_entry_for, find_suggestion, confirm, reject,
  suggestion_key, refresh_correlation_suggestions, decide_correlation_suggestion,
}
use tracegarden.Timeline.Ingest.{timeline_entry_for}
use tracegarden.Timeline.Found.{AreFiled}
use tracegarden.Timeline.Final.{decided_of, link_of, Repeats, decide_correlation_suggestion_final}
use tracegarden.Scenarios.Fixtures.{dates, pod_state}

abbrev policy : RetentionPolicy
policy = record { workspace_id = js "w"; retention_days = 30; updated_at = 5 ∷ [] }

-- Two states of a pod, a millisecond apart.
abbrev store : Store
store = record (new_store none) {
  entries =
      (js "e1", timeline_entry_for (js "e1") (pod_state (js "7") true 1) 1)
      ∷ (js "e2", timeline_entry_for (js "e2") (pod_state (js "9") false 2) 2)
      ∷ [];
}

abbrev ids : ℕ → Str
ids n = b'g' ∷ n ∷ []

abbrev later_ids : ℕ → Str
later_ids n = b'h' ∷ n ∷ []

abbrev suggestion : Suggestion
suggestion = record {
  id = b'g' ∷ 0 ∷ [];
  workspace_id = js "w";
  left_entry_id = js "e1";
  right_entry_id = js "e2";
  signals = time ∷ [];
  status = pending;
  created_at = 5 ∷ [];
  decided_at = none;
  decided_by_member_id = none;
  confirmed_link = none;
}

refreshed :
    (refresh_correlation_suggestions dates ids (5 ∷ []) (js "w") store).suggestions
    ≡ (js "w" ++ (0 ∷ (js "e1" ++ (0 ∷ js "e2"))), suggestion) ∷ []
unfolding refresh_correlation_suggestions offer_all offer with_ids correlation_entry_for
    suggest_correlation_candidates candidates_with candidate_of correlation_signals_between
    time_signal ownership_signal owned_by observation_uid label_signal revision_signal no_duplicates
    suggestion_key timeline_entry_for new_store get set ltb_str ◌===◌
refreshed = refl

decide_correlation_suggestion_final_example :
    let first =
      decide_correlation_suggestion dates ids
        (js "l1")
        (5 ∷ [])
        (js "w")
        (ids 0)
        (js "m")
        confirm
        store in
    let decided =
      decided_of dates (js "w") (ids 0) (js "l1") (5 ∷ []) (js "m") confirm suggestion in
    let link = link_of dates (js "w") (ids 0) (js "l1") (5 ∷ []) (js "m") confirm suggestion in
    (first.0
      ≡ ok (some (record { suggestion = decided; confirmed_link = link; idempotent = false })))
    × Repeats dates
        (js "w")
        (ids 0)
        reject
        decided
        link
        (refresh_correlation_suggestions dates later_ids (6 ∷ []) (js "w") first.1)
        (decide_correlation_suggestion dates later_ids
          (js "l2")
          (6 ∷ [])
          (js "w")
          (ids 0)
          (js "n")
          reject
          first.1)
unfolding suggestion_key trim ◌===◌ get new_store
decide_correlation_suggestion_final_example =
    decide_correlation_suggestion_final dates (js "w") (ids 0) ids later_ids (js "l1") (js "l2")
      (5 ∷ []) (6 ∷ []) (js "m") (js "n") confirm reject store suggestion
      (subst (λ m. AreFiled (js "w") m) (sym refreshed) ((λ e. refl), refl, tt))
      (ap (λ m. find_suggestion (js "w") (ids 0) m) refreshed) refl refl (λ i. refl)
      (refl, refl, refl, refl)
