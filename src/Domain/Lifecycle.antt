-- ===== src/Domain/Lifecycle.antt =====
-- packages/domain/src/index.ts: the lifecycle of an experiment, `createExperimentRecord` and
-- `updateExperimentRecord`. The merge of an update is the list of the fields of the request followed by
-- those of the record: the first field of a name is read, also where it holds `undefined`.
pub mod Updates
use tracegarden.Prelude.{
  Bool, true, false, Option, none, some, List, [], ◌∷◌, if◌then◌else◌, Str, js,
}
use tracegarden.Prelude.Value.{
  Value, null, string, array, object, Items, nil, cons, Fields, end, field, record_of,
}
use tracegarden.Prelude.Result.{Result, ok, err}
use tracegarden.Domain.Experiment.{
  ExperimentState, draft, active, concluded, abandoned, ExperimentWorkload, ExperimentInput,
  ExperimentRecord, ExperimentError, lifecycle, object_required, parse_experiment_input, validate,
}

unfoldable pub is_valid_transition : ExperimentState → ExperimentState → Bool
is_valid_transition draft draft = true
is_valid_transition draft active = true
is_valid_transition draft abandoned = true
is_valid_transition active active = true
is_valid_transition active concluded = true
is_valid_transition active abandoned = true
is_valid_transition concluded concluded = true
is_valid_transition abandoned abandoned = true
is_valid_transition _ _ = false

abbrev pub state_text : ExperimentState → Str
state_text draft = js "draft"
state_text active = js "active"
state_text concluded = js "concluded"
state_text abandoned = js "abandoned"

abbrev pub strings_value : List Str → Items
strings_value [] = nil
strings_value (s ∷ rest) = cons (string s) (strings_value rest)

abbrev pub workload_value : ExperimentWorkload → Value
workload_value w = object (
    field (js "clusterId") (string w.cluster_id) (
      field (js "namespace") (string w.namespace)
        (field (js "kind") (string w.kind) (field (js "name") (string w.name) end))))

abbrev pub workloads_value : List ExperimentWorkload → Items
workloads_value [] = nil
workloads_value (w ∷ rest) = cons (workload_value w) (workloads_value rest)

abbrev pub revision_value : Option Str → Value
revision_value none = null
revision_value (some s) = string s

abbrev pub fields_of_input : ExperimentInput → Fields
fields_of_input v = field (js "hypothesis") (string v.hypothesis) (
    field (js "change") (string v.change) (
      field (js "observation") (string v.observation) (
        field (js "conclusion") (string v.conclusion) (
          field (js "state") (string (state_text v.state)) (
            field (js "tags") (array (strings_value v.tags)) (
              field (js "workloads") (array (workloads_value v.workloads))
                (field (js "gitRevision") (revision_value v.git_revision) end)))))))

-- `{ ...current, ...source }`.
unfoldable pub merge : Fields → Fields → Fields
merge end current = current
merge (field k v fs) current = field k v (merge fs current)

abbrev stamped : Str → Str → Str → Str → Str → ExperimentInput → ExperimentRecord
stamped id workspace member entry now value = record {
  id = id;
  workspace_id = workspace;
  timeline_entry_id = entry;
  created_by_member_id = member;
  input = value;
  created_at = now;
  updated_at = now;
}

unfoldable pub create_experiment_record :
    Str → Str → Str → Str → Str → Value → Result ExperimentError ExperimentRecord
create_experiment_record id workspace member entry now v = elim (parse_experiment_input v) [
  | err e ↦ err e
  | ok value ↦ ok (stamped id workspace member entry now value)
]

abbrev pub apply_update :
    ExperimentRecord → Str → ExperimentInput → Result ExperimentError ExperimentRecord
apply_update current now value =
    if is_valid_transition current.input.state value.state
    then ok (record current { input = value; updated_at = now })
    else err (lifecycle current.input.state value.state)

unfoldable pub update_experiment_record :
    ExperimentRecord → Value → Str → Result ExperimentError ExperimentRecord
unfolding is_valid_transition
update_experiment_record current v now = elim (record_of v) [
  | none ↦ err object_required
  | some source ↦ elim (validate (merge source (fields_of_input current.input))) [
    | err e ↦ err e
    | ok value ↦ apply_update current now value
  ]
]
