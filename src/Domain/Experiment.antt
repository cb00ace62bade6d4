-- ===== src/Domain/Experiment.antt =====
-- The experiments of packages/domain/src/index.ts: the validation of an input, creation, update and
-- the lifecycle. A validator returns its value and the issues that it pushes; an issue has its field,
-- and a constructor for each message. `randomUUID` and the clock are arguments.
pub mod Acceptance
pub mod Distinct
use tracegarden.Prelude.{
  ℕ, Bool, true, false, not, ◌&&◌, ◌||◌, Option, none, some, List, [], ◌∷◌, ◌++◌, map, ltb, leb,
  ◌==◌, if◌then◌else◌, length, any, all, Str, js, ◌===◌, trim, truthy,
}
use tracegarden.Prelude.Value.{
  Value, undefined, null, string, array, Items, nil, cons, Fields, prop, record_of, nullish_or,
  text_or_empty, all_strings, no_duplicates, split,
}
use tracegarden.Prelude.Result.{Result, ok, err}
use tracegarden.Domain.Names.{
  is_valid_cluster_id, is_valid_namespace, is_kind, is_valid_resource_name, is_alphanumeric,
}

pub data ExperimentState : Type 0 where
  draft active concluded abandoned : ExperimentState

pub record ExperimentWorkload : Type 0 where
  pub cluster_id : Str
  pub namespace : Str
  pub kind : Str
  pub name : Str

pub record ExperimentInput : Type 0 where
  pub hypothesis : Str
  pub change : Str
  pub observation : Str
  pub conclusion : Str
  pub state : ExperimentState
  pub tags : List Str
  pub workloads : List ExperimentWorkload
  pub git_revision : Option Str

pub record ExperimentRecord : Type 0 where
  pub id : Str
  pub workspace_id : Str
  pub timeline_entry_id : Str
  pub created_by_member_id : Str
  pub input : ExperimentInput
  pub created_at : Str
  pub updated_at : Str

pub data Message : Type 0 where
  not_an_object not_strings not_an_array duplicates bad_workload bad_state bad_revision : Message
  bad_conclusion conclusion_required : Message
  bad_text bad_entry : ℕ → Message

pub record Issue : Type 0 where
  pub field_name : Str
  pub message : Message

pub data ExperimentError : Type 0 where
  validation : List Issue → ExperimentError
  lifecycle : ExperimentState → ExperimentState → ExperimentError

abbrev pub issue_if : Bool → Str → Message → List Issue
issue_if true f m = record { field_name = f; message = m } ∷ []
issue_if false f m = []

abbrev pub max_text : ℕ
max_text = 20000

unfoldable pub is_text : Value → Bool
is_text (string s) = truthy (trim s) && leb (length s) max_text
is_text _ = false

unfoldable pub non_empty_string : Value → Str → Str × List Issue
unfolding is_text
non_empty_string v f = (text_or_empty v, issue_if (not (is_text v)) f (bad_text max_text))

abbrev pub checked_list : Option (List Str) → Str → ℕ → List Str × List Issue
checked_list none f maximum = ([], issue_if true f not_strings)
checked_list (some items) f maximum =
    let result = map trim items in
    (
      result,
      issue_if (any (λ item. not (truthy item) || ltb maximum (length item)) result) f
            (bad_entry maximum)
          ++ issue_if (not (no_duplicates result)) f duplicates,
    )

abbrev pub strings_of : Value → Option (List Str)
strings_of (array items) = all_strings items
strings_of _ = none

unfoldable pub string_list : Value → Str → ℕ → List Str × List Issue
unfolding all_strings no_duplicates
string_list v f maximum = checked_list (strings_of v) f maximum

abbrev workload_of_parts : List Str → Option ExperimentWorkload
workload_of_parts (c ∷ ns ∷ k ∷ n ∷ []) =
    some (record { cluster_id = trim c; namespace = trim ns; kind = trim k; name = trim n })
workload_of_parts _ = none

abbrev trimmed_field : Str → Fields → Str
trimmed_field k fs = trim (text_or_empty (prop k fs))

abbrev workload_of_fields : Option Fields → Option ExperimentWorkload
workload_of_fields none = none
workload_of_fields (some fs) = some (record {
  cluster_id = trimmed_field (js "clusterId") fs;
  namespace = trimmed_field (js "namespace") fs;
  kind = trimmed_field (js "kind") fs;
  name = trimmed_field (js "name") fs;
})

-- The four texts of an item, before they are checked. The texts of an item that is neither a text of
-- four parts nor an object are empty, and fail the check.
unfoldable pub workload_source : Value → Option ExperimentWorkload
workload_source (string s) = workload_of_parts (split b'|' s)
workload_source v = workload_of_fields (record_of v)

unfoldable pub is_valid_workload : ExperimentWorkload → Bool
is_valid_workload w =
    is_valid_cluster_id w.cluster_id
    && is_valid_namespace w.namespace
    && is_kind w.kind
    && leb (length w.kind) 63
    && is_valid_resource_name w.name

-- The key of a workload, with NULs between its texts.
unfoldable pub workload_key : ExperimentWorkload → Str
workload_key w = w.cluster_id ++ (0 ∷ (w.namespace ++ (0 ∷ (w.kind ++ (0 ∷ w.name)))))

abbrev pub keep_workload :
    Option ExperimentWorkload
    → List ExperimentWorkload × List Issue
    → List ExperimentWorkload × List Issue
keep_workload none (ws, issues) = (ws, issue_if true (js "workloads") bad_workload ++ issues)
keep_workload (some w) (ws, issues) =
    if is_valid_workload w
    then (w ∷ ws, issues)
    else (ws, issue_if true (js "workloads") bad_workload ++ issues)

unfoldable pub workload_items : Items → List ExperimentWorkload × List Issue
unfolding workload_source
workload_items nil = ([], [])
workload_items (cons item rest) = keep_workload (workload_source item) (workload_items rest)

unfoldable pub workloads_of : Value → List ExperimentWorkload × List Issue
unfolding workload_items workload_key no_duplicates
workloads_of (array items) =
    let (ws, issues) = workload_items items in
    (ws, issues ++ issue_if (not (no_duplicates (map workload_key ws))) (js "workloads") duplicates)
workloads_of _ = ([], issue_if true (js "workloads") not_an_array)

unfoldable pub state_named : Str → Option ExperimentState
state_named s =
    if s === js "draft"
    then some draft
    else if s === js "active"
    then some active
    else if s === js "concluded"
    then some concluded
    else if s === js "abandoned"
    then some abandoned
    else none

abbrev checked_state : Option ExperimentState → ExperimentState × List Issue
checked_state none = (draft, issue_if true (js "state") bad_state)
checked_state (some s) = (s, [])

unfoldable pub state_of : Value → ExperimentState × List Issue
unfolding state_named
state_of (string s) = checked_state (state_named s)
state_of _ = checked_state none

-- /^[A-Za-z0-9._/-]+$/ on the trimmed text, of at most 256 units.
unfoldable pub is_revision : Str → Bool
unfolding is_alphanumeric
is_revision s =
    truthy s
    && leb (length s) 256
    && all (λ c. is_alphanumeric c || c == b'.' || c == b'_' || c == b'/' || c == b'-') s

unfoldable pub git_revision_of : Value → Option Str × List Issue
unfolding is_revision
git_revision_of undefined = (none, [])
git_revision_of null = (none, [])
git_revision_of (string []) = (none, [])
git_revision_of (string (c ∷ s)) =
    if is_revision (trim (c ∷ s))
    then (some (trim (c ∷ s)), [])
    else (none, issue_if true (js "gitRevision") bad_revision)
git_revision_of _ = (none, issue_if true (js "gitRevision") bad_revision)

abbrev pub is_concluded : ExperimentState → Bool
is_concluded concluded = true
is_concluded _ = false

abbrev pub fits_conclusion : Value → Bool
fits_conclusion (string s) = leb (length s) max_text
fits_conclusion _ = false

abbrev pub conclusion_of : Value → Str
conclusion_of v = if fits_conclusion v then text_or_empty v else []

abbrev pub finish : ExperimentInput → List Issue → Result ExperimentError ExperimentInput
finish value [] = ok value
finish value (i ∷ issues) = err (validation (i ∷ issues))

abbrev pub raw_state : Fields → Value
raw_state fs =
    nullish_or (prop (js "state") fs)
      (nullish_or (prop (js "lifecycleState") fs) (string (js "draft")))

abbrev pub raw_tags : Fields → Value
raw_tags fs = nullish_or (prop (js "tags") fs) (array nil)

abbrev pub raw_workloads : Fields → Value
raw_workloads fs =
    nullish_or (prop (js "workloads") fs)
      (nullish_or (prop (js "associatedWorkloads") fs) (array nil))

-- The value that the checks build, and the issues that they push, in order.
unfoldable pub checked : Fields → ExperimentInput × List Issue
checked fs =
    let (hypothesis, i1) = non_empty_string (prop (js "hypothesis") fs) (js "hypothesis") in
    let (change, i2) = non_empty_string (prop (js "change") fs) (js "change") in
    let (observation, i3) = non_empty_string (prop (js "observation") fs) (js "observation") in
    let raw = prop (js "conclusion") fs in
    let conclusion = conclusion_of raw in
    let i4 = issue_if (not (fits_conclusion raw)) (js "conclusion") bad_conclusion in
    let (state, i5) = state_of (raw_state fs) in
    let i6 =
      issue_if (is_concluded state && not (truthy (trim conclusion))) (js "conclusion")
        conclusion_required in
    let (tags, i7) = string_list (raw_tags fs) (js "tags") 64 in
    let (workloads, i8) = workloads_of (raw_workloads fs) in
    let (revision, i9) = git_revision_of (prop (js "gitRevision") fs) in
    (
      record {
        hypothesis = hypothesis;
        change = change;
        observation = observation;
        conclusion = conclusion;
        state = state;
        tags = tags;
        workloads = workloads;
        git_revision = revision;
      },
      i1 ++ (i2 ++ (i3 ++ (i4 ++ (i5 ++ (i6 ++ (i7 ++ (i8 ++ i9))))))),
    )

-- The issues are thrown, if there are any.
unfoldable pub validate : Fields → Result ExperimentError ExperimentInput
unfolding checked
validate fs = let (value, issues) = checked fs in finish value issues

abbrev pub object_required : ExperimentError
object_required = validation (issue_if true (js "experiment") not_an_object)

unfoldable pub parse_experiment_input : Value → Result ExperimentError ExperimentInput
unfolding validate
parse_experiment_input v = elim (record_of v) [ none ↦ err object_required | some fs ↦ validate fs ]
