-- ===== src/Domain/Lifecycle/Updates.antt =====
-- What any sequence of updates can do to an experiment.
use tracegarden.Prelude.{
  ◌≡◌, refl, sym, ◌∙◌, subst, inl, inr, Bool, true, false, List, [], ◌∷◌, ◌++◌, arith, Bool-cases,
  Option-cases, Str,
}
use tracegarden.Prelude.Value.{Value, record_of}
use tracegarden.Prelude.Result.{ok_inj, Result, ok, err, Result-cases}
use tracegarden.Domain.Experiment.{
  draft, ExperimentError, ExperimentState, concluded, abandoned, ExperimentRecord, ExperimentInput,
  parse_experiment_input, validate,
}
use tracegarden.Domain.Experiment.Acceptance.{IsAccepted, parse-IsAccepted, validate-IsAccepted}
use tracegarden.Domain.Lifecycle.{
  is_valid_transition, create_experiment_record, update_experiment_record, fields_of_input, merge,
  apply_update,
}

-- An experiment that was created has passed every check.
pub create_experiment_record-IsAccepted :
    (id workspace member entry now : Str) (x : Value) (r : ExperimentRecord)
    → create_experiment_record id workspace member entry now x ≡ ok r
    → IsAccepted r.input
unfolding create_experiment_record
create_experiment_record-IsAccepted id workspace member entry now x r h =
    elim (Result-cases (parse_experiment_input x)) [
      | inl (e, p) ↦ cc (rw (p, create_experiment_record) at h)
      | inr (v, p) ↦
          subst (λ (q : ExperimentRecord). IsAccepted q.input)
            (ok_inj _ r (rw (p, create_experiment_record) at h)) (parse-IsAccepted x v p)
    ]

-- What one accepted update does: the lifecycle allows the move, the new content has passed every
-- check, and what identifies the experiment stays.
pub record Updates (a b : ExperimentRecord) : Type 0 where
  pub accepted : IsAccepted b.input
  pub moves : is_valid_transition a.input.state b.input.state ≡ true
  pub same_id : b.id ≡ a.id
  pub same_workspace : b.workspace_id ≡ a.workspace_id
  pub same_entry : b.timeline_entry_id ≡ a.timeline_entry_id
  pub same_author : b.created_by_member_id ≡ a.created_by_member_id
  pub same_creation : b.created_at ≡ a.created_at

apply_update-Updates :
    (a b : ExperimentRecord) (now : Str) (v : ExperimentInput)
    → IsAccepted v
    → apply_update a now v ≡ ok b
    → Updates a b
apply_update-Updates a b now v c h = elim (Bool-cases (is_valid_transition a.input.state v.state)) [
  | inr t ↦ cc (rw t at h)
  | inl t ↦ subst (Updates a) (ok_inj _ b (rw t at h)) (record {
    accepted = c;
    moves = t;
    same_id = refl;
    same_workspace = refl;
    same_entry = refl;
    same_author = refl;
    same_creation = refl;
  })
]

-- An update that is accepted is a move that the lifecycle allows, to a content that has passed
-- every check, and keeps the experiment's id, workspace, timeline entry, author and creation.
pub update_experiment_record-Updates :
    (a b : ExperimentRecord) (x : Value) (now : Str)
    → update_experiment_record a x now ≡ ok b
    → Updates a b
unfolding update_experiment_record
update_experiment_record-Updates a b x now h = elim (Option-cases (record_of x)) [
  | inl n ↦ cc (rw (n, update_experiment_record) at h)
  | inr (fs, r) ↦ elim (Result-cases (validate (merge fs (fields_of_input a.input)))) [
    | inl (e, p) ↦ cc (rw (r, update_experiment_record, p) at h)
    | inr (v, p) ↦
        apply_update-Updates a b now v (validate-IsAccepted _ v p)
          (rw (r, update_experiment_record, p) at h)
  ]
]

-- A sequence of requests: one that throws leaves the experiment as it was.
abbrev after_request : ExperimentRecord → Result ExperimentError ExperimentRecord → ExperimentRecord
after_request current (ok next) = next
after_request current (err e) = current

unfoldable pub update_all : ExperimentRecord → List (Value × Str) → ExperimentRecord
update_all r [] = r
update_all r ((x, now) ∷ rest) =
    update_all (after_request r (update_experiment_record r x now)) rest

abbrev pub is_terminal : ExperimentState → Bool
is_terminal concluded = true
is_terminal abandoned = true
is_terminal _ = false

-- From one moment of an experiment to a later one: the later content is accepted, it is the same
-- experiment, it is still concluded, or still abandoned, if it was at the first moment, and it is in
-- draft only if it was then.
pub record Evolves (a b : ExperimentRecord) : Type 0 where
  pub accepted : IsAccepted b.input
  pub settled : is_terminal a.input.state ≡ true → b.input.state ≡ a.input.state
  pub drafted : b.input.state ≡ draft → a.input.state ≡ draft
  pub same_id : b.id ≡ a.id
  pub same_workspace : b.workspace_id ≡ a.workspace_id
  pub same_entry : b.timeline_entry_id ≡ a.timeline_entry_id
  pub same_author : b.created_by_member_id ≡ a.created_by_member_id
  pub same_creation : b.created_at ≡ a.created_at

Updates-Evolves : (a b c : ExperimentRecord) → Updates a b → Evolves b c → Evolves a c
unfolding is_valid_transition
Updates-Evolves a b c u e = record {
  accepted = e.accepted;
  settled = ground (arith, u.moves, e.settled);
  drafted = ground (arith, u.moves, e.drafted);
  same_id = e.same_id ∙ u.same_id;
  same_workspace = e.same_workspace ∙ u.same_workspace;
  same_entry = e.same_entry ∙ u.same_entry;
  same_author = e.same_author ∙ u.same_author;
  same_creation = e.same_creation ∙ u.same_creation;
}

Evolves-refl : (a : ExperimentRecord) → IsAccepted a.input → Evolves a a
Evolves-refl a c = record {
  accepted = c;
  settled = λ t. refl;
  drafted = λ t. t;
  same_id = refl;
  same_workspace = refl;
  same_entry = refl;
  same_author = refl;
  same_creation = refl;
}

update_all-Evolves :
    (a : ExperimentRecord) (requests : List (Value × Str))
    → IsAccepted a.input
    → Evolves a (update_all a requests)
unfolding update_all
update_all-Evolves a [] c = Evolves-refl a c
update_all-Evolves a ((x, now) ∷ rest) c = elim (Result-cases (update_experiment_record a x now)) [
  | inl (e, h) ↦ rw h (update_all-Evolves a rest c)
  | inr (b, h) ↦
      let u = update_experiment_record-Updates a b x now h in
      rw h (Updates-Evolves a b (update_all b rest) u (update_all-Evolves b rest u.accepted))
]

update_all-append :
    (a : ExperimentRecord) (before later : List (Value × Str))
    → update_all a (before ++ later) ≡ update_all (update_all a before) later
unfolding update_all
update_all-append a [] later = refl
update_all-append a ((x, now) ∷ before) later =
    update_all-append (after_request a (update_experiment_record a x now)) before later

-- From the creation of an experiment on, after any sequence of requests of which some may be refused,
-- and however it is cut in two, its content is accepted at the cut and at the end: texts that are not
-- blank and not too long, a conclusion where it is concluded, valid tags and workloads, none of them
-- twice, and a valid revision. It keeps its id, workspace, timeline entry, author and creation. Where it
-- is concluded at the cut, or abandoned, it is so at the end, and it is a draft at the end only if it was
-- one at the cut and when it was created.
pub create-update_all-Evolves :
    (id workspace member entry now : Str) (x : Value) (a : ExperimentRecord)
    (before later : List (Value × Str))
    → create_experiment_record id workspace member entry now x ≡ ok a
    → Evolves a (update_all a before)
      × Evolves (update_all a before) (update_all a (before ++ later))
create-update_all-Evolves id workspace member entry now x a before later h =
    let created = create_experiment_record-IsAccepted id workspace member entry now x a h in
    let first = update_all-Evolves a before created in
    (
      first,
      subst (Evolves (update_all a before)) (sym (update_all-append a before later))
          (update_all-Evolves (update_all a before) later first.accepted),
    )
