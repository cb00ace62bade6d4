-- ===== src/Timeline/Decisions.antt =====
-- `refreshCorrelationSuggestions` and `decideCorrelationSuggestion` of packages/db/src/index.ts.
use tracegarden.Prelude.{
  ℕ, suc, Bool, true, false, not, ◌&&◌, Option, none, some, List, [], ◌∷◌, ◌++◌, map, if◌then◌else◌,
  any, find, filter, Str, ◌===◌, trim, truthy,
}
use tracegarden.Prelude.Dates.{Dates}
use tracegarden.Prelude.Dict.{Dict, get, set, values}
use tracegarden.Prelude.Result.{Result, ok, err}
use tracegarden.Domain.Correlation.{CorrelationOwner}
use tracegarden.Cluster.{OwnerReference, Observation, kind_text}
use tracegarden.Domain.Correlation.{
  CorrelationObservation, CorrelationEntry, suggest_correlation_candidates, Candidate,
  SuggestionStatus, pending, confirmed, rejected,
}
use tracegarden.Timeline.Records.{
  Entry, observed, experiment, decision_identifiers_required, decision_conflict, ConfirmedLink,
  Suggestion, Store, TimelineError,
}

unfoldable pub suggestion_key : Str → Str → Str → Str
suggestion_key workspace left right = workspace ++ (0 ∷ (left ++ (0 ∷ right)))

abbrev pub candidate_key : Candidate → Str
candidate_key c = suggestion_key c.workspace_id c.left_entry_id c.right_entry_id

abbrev pub is_pending : Suggestion → Bool
is_pending g = elim g.status [ pending ↦ true | confirmed ↦ false | rejected ↦ false ]

-- A pending suggestion of the workspace that is no candidate any more.
abbrev pub is_stale : Str → List Str → Str × Suggestion → Bool
is_stale workspace current (k, g) =
    g.workspace_id === workspace && is_pending g && not (any (λ c. c === k) current)

-- A candidate comes with the id that its suggestion would get.
unfoldable pub offer : Str → Str × Candidate → Dict Suggestion → Dict Suggestion
offer now (id, c) suggestions = elim (get (candidate_key c) suggestions) [
  | none ↦
      set (candidate_key c)
        (record {
          id = id;
          workspace_id = c.workspace_id;
          left_entry_id = c.left_entry_id;
          right_entry_id = c.right_entry_id;
          signals = c.signals;
          status = pending;
          created_at = now;
          decided_at = none;
          decided_by_member_id = none;
          confirmed_link = none;
        })
        suggestions
  | some existing ↦
      if is_pending existing
      then set (candidate_key c) (record existing { signals = c.signals }) suggestions
      else suggestions
]

unfoldable pub offer_all : Str → List (Str × Candidate) → Dict Suggestion → Dict Suggestion
offer_all now [] suggestions = suggestions
offer_all now (c ∷ rest) suggestions = offer_all now rest (offer now c suggestions)

-- A reference as a correlation reads it.
abbrev owner_of : OwnerReference → CorrelationOwner
owner_of r = record { kind = r.kind; name = r.name; uid = r.uid }

abbrev correlation_observation : Observation → CorrelationObservation
correlation_observation o = record {
  kind = kind_text o.kind;
  name = o.name;
  namespace = o.namespace;
  cluster_id = o.cluster_id;
  source_identity = o.source_identity;
  owner_references = map owner_of o.owner_references;
  labels = o.labels;
  revision = o.revision;
}

-- `correlationEntryFor`.
unfoldable pub correlation_entry_for : Entry → CorrelationEntry
correlation_entry_for e = record {
  id = e.id;
  workspace_id = e.workspace_id;
  occurred_at = e.occurred_at;
  observation = elim e.content [
    | observed x ↦ some (correlation_observation x.observation)
    | experiment x ↦ none
  ];
  experiment = elim e.content [
    | observed x ↦ none
    | experiment x ↦ some (record {
      workloads = x.experiment.input.workloads;
      git_revision = x.experiment.input.git_revision;
    })
  ];
}

-- The candidates get their ids in order, from what `randomUUID` returns at each.
unfoldable pub with_ids : (ℕ → Str) → ℕ → List Candidate → List (Str × Candidate)
with_ids ids n [] = []
with_ids ids n (c ∷ rest) = (ids n, c) ∷ with_ids ids (suc n) rest

abbrev pub candidates_of : Dates → (ℕ → Str) → Str → Store → List (Str × Candidate)
candidates_of d ids workspace s = with_ids ids 0 (
    suggest_correlation_candidates d
      (map correlation_entry_for (filter (λ e. e.workspace_id === workspace) (values s.entries))))

unfoldable pub refresh_correlation_suggestions : Dates → (ℕ → Str) → Str → Str → Store → Store
refresh_correlation_suggestions d ids now workspace s =
    let candidates = candidates_of d ids workspace s in
    let current = map (λ c. candidate_key c.1) candidates in
    record s {
      suggestions =
          offer_all now candidates (filter (λ p. not (is_stale workspace current p)) s.suggestions);
    }

pub data CorrelationDecision : Type 0 where
  confirm reject : CorrelationDecision

abbrev pub status_of : CorrelationDecision → SuggestionStatus
status_of confirm = confirmed
status_of reject = rejected

-- `(decision === "confirm") === (status === "confirmed")`.
abbrev pub agrees : CorrelationDecision → SuggestionStatus → Bool
agrees confirm confirmed = true
agrees confirm pending = false
agrees confirm rejected = false
agrees reject confirmed = false
agrees reject pending = true
agrees reject rejected = true

pub record DecisionResult : Type 0 where
  pub suggestion : Suggestion
  pub confirmed_link : Option ConfirmedLink
  pub idempotent : Bool

abbrev pub find_suggestion : Str → Str → Dict Suggestion → Option Suggestion
find_suggestion workspace id suggestions =
    find (λ g. g.workspace_id === workspace && g.id === id) (values suggestions)

abbrev pub find_link : Str → Dict ConfirmedLink → Option ConfirmedLink
find_link id links = find (λ l. l.suggestion_id === id) (values links)

-- The spread writes the link over the one of the suggestion, where there is one.
abbrev pub with_link : Option ConfirmedLink → Suggestion → Suggestion
with_link none g = g
with_link (some l) g = record g { confirmed_link = some l }

abbrev pub decided_again :
    CorrelationDecision → Option ConfirmedLink → Suggestion → Result TimelineError DecisionResult
decided_again decision link g =
    if agrees decision g.status
    then ok (record { suggestion = with_link link g; confirmed_link = link; idempotent = true })
    else err (decision_conflict g.status)

abbrev pub link_for :
    CorrelationDecision → Str → Str → Str → Str → Suggestion → Option ConfirmedLink
link_for reject fresh now workspace member_id g = none
link_for confirm fresh now workspace member_id g = some (record {
  id = fresh;
  workspace_id = workspace;
  suggestion_id = g.id;
  left_entry_id = g.left_entry_id;
  right_entry_id = g.right_entry_id;
  confirmed_by_member_id = member_id;
  confirmed_at = now;
})

abbrev pub put_link : Str → Option ConfirmedLink → Dict ConfirmedLink → Dict ConfirmedLink
put_link id none links = links
put_link id (some l) links = set id l links

unfoldable pub decide_pending :
    Str → Str → Str → Str → CorrelationDecision → Suggestion → Store → DecisionResult × Store
decide_pending fresh now workspace member_id decision g s =
    let link = link_for decision fresh now workspace member_id g in
    let decided = with_link link (record g {
      status = status_of decision;
      decided_at = some now;
      decided_by_member_id = some member_id;
    }) in
    (
      record { suggestion = decided; confirmed_link = link; idempotent = false },
      record s {
        links = put_link g.id link s.links;
        suggestions =
            set (suggestion_key workspace g.left_entry_id g.right_entry_id) decided s.suggestions;
      },
    )

abbrev pub decide_found :
    Str
    → Str
    → Str
    → Str
    → CorrelationDecision
    → Store
    → Option Suggestion
    → Result TimelineError (Option DecisionResult) × Store
decide_found fresh now workspace member_id decision s none = (ok none, s)
decide_found fresh now workspace member_id decision s (some g) =
    if is_pending g
    then (let (r, s') = decide_pending fresh now workspace member_id decision g s in
        (ok (some r), s'))
    else elim (decided_again decision (find_link g.id s.links) g) [
      | ok r ↦ (ok (some r), s)
      | err e ↦ (err e, s)
    ]

unfoldable pub decide_correlation_suggestion :
    Dates
    → (ℕ → Str)
    → Str
    → Str
    → Str
    → Str
    → Str
    → CorrelationDecision
    → Store
    → Result TimelineError (Option DecisionResult) × Store
unfolding refresh_correlation_suggestions
decide_correlation_suggestion d ids fresh now workspace id member_id decision s =
    if truthy (trim workspace) && truthy (trim id) && truthy (trim member_id)
    then (let s' = refresh_correlation_suggestions d ids now workspace s in
        decide_found fresh now workspace member_id decision s'
          (find_suggestion workspace id s'.suggestions))
    else (err decision_identifiers_required, s)
