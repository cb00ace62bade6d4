-- ===== src/Timeline/Retention.antt =====
-- `getRetentionPolicy`, `updateRetentionPolicy` and `cleanupRetention` of packages/db/src/index.ts.
use tracegarden.Prelude.{
  ℕ, ◌-◌, ◌*◌, Bool, false, not, ◌&&◌, ◌||◌, Option, none, some, List, [], ◌∷◌, ◌++◌, map, ltb,
  if◌then◌else◌, length, take, any, filter, Str, ◌===◌, trim, truthy,
}
use tracegarden.Prelude.Dates.{Dates}
use tracegarden.Prelude.Dict.{Dict, get, set, remove, values}
use tracegarden.Prelude.Value.{Value}
use tracegarden.Domain.Retention.{default_retention_days, parse_retention_days}
use tracegarden.Prelude.Result.{Result, ok, err}
use tracegarden.Timeline.Records.{
  invalid_cutoff, retention_workspace_required, invalid_cleanup_time, invalid_retention, observed,
  experiment, Entry, Suggestion, RetentionPolicy, Store, TimelineError,
}
use tracegarden.Timeline.Ingest.{observation_key}

-- `Date.parse(e.occurredAt) < cutoff` is false for a text that is no date.
abbrev before : Option ℕ → ℕ → Bool
before none cutoff = false
before (some t) cutoff = ltb t cutoff

-- `protectedEntryIds.has(id)`: the entry is an end of a confirmed link.
unfoldable pub is_protected : Store → Str → Bool
is_protected s id = any (λ l. l.left_entry_id === id || l.right_entry_id === id) (values s.links)

pub record CleanupResult : Type 0 where
  pub workspace_id : Str
  pub retention_days : ℕ
  pub cutoff : Str
  pub eligible_observations : ℕ
  pub protected_observations : ℕ

unfoldable pub remove_all {ℓ} : {V : Type ℓ} → List Str → Dict V → Dict V
remove_all [] m = m
remove_all (k ∷ ks) m = remove_all ks (remove k m)

-- The keys of the observations that the entries show.
unfoldable pub observation_keys : List Entry → List Str
observation_keys [] = []
observation_keys (e ∷ rest) = elim e.content [
  | observed x ↦ observation_key x.observation ∷ observation_keys rest
  | experiment x ↦ observation_keys rest
]

abbrev has_id : List Str → Str → Bool
has_id ids id = any (λ i. i === id) ids

-- `key.startsWith(prefix)`.
abbrev starts_with : Str → Str → Bool
starts_with prefix key = take (length prefix) key === prefix

abbrev review_of_any : List Str → Str → Bool
review_of_any ids key = any (λ id. starts_with (id ++ 0 ∷ []) key) ids

abbrev suggests_any : List Str → Str × Suggestion → Bool
suggests_any ids (k, g) = has_id ids g.left_entry_id || has_id ids g.right_entry_id

-- The deletions of a cleanup, for the entries that are eligible.
unfoldable pub delete_entries : List Entry → Store → Store
delete_entries eligible s =
    let ids = map (λ e. e.id) eligible in
    let keys = observation_keys eligible in
    record s {
      entries = remove_all ids s.entries;
      observations = remove_all keys s.observations;
      orders = remove_all keys s.orders;
      reviews = filter (λ key. not (review_of_any ids key)) s.reviews;
      suggestions = filter (λ p. not (suggests_any ids p)) s.suggestions;
    }

abbrev pub day : ℕ
day = 86400000

module _ (d : Dates) where
  abbrev pub Reply : Type 0 → Type 0
  Reply A = Result TimelineError A × Store

  unfoldable pub get_retention_policy : ℕ → Str → Store → Reply RetentionPolicy
  get_retention_policy now workspace s =
      if truthy (trim workspace)
      then elim (get workspace s.policies) [
        | some policy ↦ (ok policy, s)
        | none ↦
            let policy : RetentionPolicy = record {
              workspace_id = workspace;
              retention_days = default_retention_days;
              updated_at = d.iso now;
            } in
            (ok policy, record s { policies = set workspace policy s.policies })
      ]
      else (err retention_workspace_required, s)

  unfoldable pub update_retention_policy : ℕ → Str → Value → Store → Reply RetentionPolicy
  unfolding parse_retention_days
  update_retention_policy now workspace days s =
      if truthy (trim workspace)
      then elim (parse_retention_days days) [
        | err e ↦ (err invalid_retention, s)
        | ok n ↦
            let policy : RetentionPolicy = record {
              workspace_id = workspace;
              retention_days = n;
              updated_at = d.iso now;
            } in
            (ok policy, record s { policies = set workspace policy s.policies })
      ]
      else (err retention_workspace_required, s)

  -- An observation of the workspace from before the cutoff.
  unfoldable pub is_candidate : Str → ℕ → Entry → Bool
  is_candidate workspace cutoff e = elim e.content [
    | observed x ↦ e.workspace_id === workspace && before (d.parse e.occurred_at) cutoff
    | experiment x ↦ false
  ]

  abbrev pub is_eligible : Str → ℕ → Store → Entry → Bool
  is_eligible workspace cutoff s e = is_candidate workspace cutoff e && not (is_protected s e.id)

  unfoldable pub cleanup_before : Str → ℕ → ℕ → Store → Reply CleanupResult
  cleanup_before workspace days cutoff s =
      let candidates = filter (is_candidate workspace cutoff) (values s.entries) in
      let eligible = filter (λ e. not (is_protected s e.id)) candidates in
      (
        ok (record {
          workspace_id = workspace;
          retention_days = days;
          cutoff = d.iso cutoff;
          eligible_observations = length eligible;
          protected_observations = length (filter (λ e. is_protected s e.id) candidates);
        }),
        delete_entries eligible s,
      )

  -- `at` is the instant that `now` stands for. With a cutoff that no date holds, no entry is older,
  -- and `toISOString` throws.
  unfoldable pub cleanup_with : Str → Option ℕ → ℕ → Store → Reply CleanupResult
  cleanup_with workspace none days s = (err invalid_cleanup_time, s)
  cleanup_with workspace (some instant) days s =
      if ltb instant (days * day)
      then (err invalid_cutoff, s)
      else cleanup_before workspace days (instant - days * day) s

  unfoldable pub cleanup_retention : ℕ → Str → Option ℕ → Store → Reply CleanupResult
  unfolding get_retention_policy
  cleanup_retention now workspace at s =
      let (policy, s') = get_retention_policy now workspace s in
      elim policy [ err e ↦ (err e, s') | ok p ↦ cleanup_with workspace at p.retention_days s' ]
