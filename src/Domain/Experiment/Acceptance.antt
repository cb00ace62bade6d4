-- ===== src/Domain/Experiment/Acceptance.antt =====
-- What an accepted experiment satisfies.
use tracegarden.Prelude.{
  ℕ, ◌≤◌, ◌≡◌, refl, subst, inl, inr, Bool, true, false, not, ◌&&◌, ◌||◌, Option, none, some, List,
  [], ◌∷◌, ◌++◌, map, arith, ltb, leb, ◌==◌, Bool-cases, Option-cases, length, any, all, All, Str,
  js, trim, truthy,
}
use tracegarden.Prelude.Value.{string, record_of, prop, nil, cons, Items, array, Value, Fields}
use tracegarden.Prelude.Result.{ok}
use tracegarden.Domain.Experiment.Distinct.{
  IsDistinct, or_first, or_second, not-false, no_duplicates-IsDistinct, IsDistinct-map,
}
use tracegarden.Domain.Experiment.{
  is_revision, is_alphanumeric, workload_key, strings_of, checked_list, Message,
  parse_experiment_input, git_revision_of, raw_workloads, raw_tags, string_list, raw_state,
  state_of, keep_workload, workload_source, ExperimentWorkload, is_concluded, issue_if,
  ExperimentState, concluded, ExperimentInput, Issue, finish, validate, max_text, is_text,
  is_valid_workload, non_empty_string, checked, conclusion_of, fits_conclusion, bad_conclusion,
  conclusion_required, workload_items, workloads_of,
}

-- A tag: not blank, with no space around it, and of at most 64 units.
abbrev pub IsTag : Str → Type 0
IsTag tag = (truthy tag ≡ true) × (length tag ≤ 64) × ((raw : Str) × (tag ≡ trim raw))

-- A revision: not empty, of at most 256 letters, digits, points, underscores, slashes and dashes.
abbrev pub IsRevision : Option Str → Type 0
IsRevision none = Unit
IsRevision (some s) =
    (truthy s ≡ true)
    × (length s ≤ 256)
    × (all (λ c. is_alphanumeric c || c == b'.' || c == b'_' || c == b'/' || c == b'-') s ≡ true)

-- What the code asks of an experiment: three texts that are not blank, a conclusion where it is
-- concluded, none of these texts too long, tags of the right size and workloads with valid names, none
-- of them twice, and a well-formed revision, if there is one.
pub record IsAccepted (v : ExperimentInput) : Type 0 where
  pub hypothesis_given : truthy (trim v.hypothesis) ≡ true
  pub change_given : truthy (trim v.change) ≡ true
  pub observation_given : truthy (trim v.observation) ≡ true
  pub concluded_given : v.state ≡ concluded → truthy (trim v.conclusion) ≡ true
  pub lengths :
      (length v.hypothesis ≤ 20000)
      × (length v.change ≤ 20000)
      × (length v.observation ≤ 20000)
      × (length v.conclusion ≤ 20000)
  pub workloads_valid : all is_valid_workload v.workloads ≡ true
  pub workloads_distinct : IsDistinct v.workloads
  pub tags_valid : All IsTag v.tags
  pub tags_distinct : IsDistinct v.tags
  pub revision_valid : IsRevision v.git_revision

not_above : (n m : ℕ) → ltb n m ≡ false → m ≤ n
not_above n m h = ground (arith, h)

issue_if-nil : (b : Bool) (f : Str) (m : Message) → issue_if b f m ≡ [] → b ≡ false
issue_if-nil true f m h = cc
issue_if-nil false f m h = refl

tags_trimmed :
    (items : List Str)
    → any (λ item. not (truthy item) || ltb 64 (length item)) (map trim items) ≡ false
    → All IsTag (map trim items)
tags_trimmed [] h = tt
tags_trimmed (t ∷ items) h =
    let blank : Bool = not (truthy (trim t)) in
    let long : Bool = ltb 64 (length (trim t)) in
    let others : Bool = any (λ item. not (truthy item) || ltb 64 (length item)) (map trim items) in
    let first = or_first (blank || long) others h in
    (
      (
        not-false (truthy (trim t)) (or_first blank long first),
        not_above 64 (length (trim t)) (or_second blank long first),
        (t, refl),
      ),
      tags_trimmed items (or_second (blank || long) others h),
    )

append-eq-nil : {A : Type 0} (xs ys : List A) → xs ++ ys ≡ [] → (xs ≡ []) × (ys ≡ [])
append-eq-nil [] ys h = (refl, h)
append-eq-nil (x ∷ xs) ys h = cc

finish-ok :
    (value v : ExperimentInput) (issues : List Issue)
    → finish value issues ≡ ok v
    → (value ≡ v) × (issues ≡ [])
finish-ok value v [] h = ground arith
finish-ok value v (i ∷ issues) h = cc

non_empty_string-nil :
    (x : Value) (f : Str)
    → (non_empty_string x f).1 ≡ []
    → (truthy (trim (non_empty_string x f).0) ≡ true) × (length (non_empty_string x f).0 ≤ max_text)
unfolding non_empty_string is_text
non_empty_string-nil x f h = ground arith

conclusion-nil :
    (raw : Value) (f : Str)
    → issue_if (not (fits_conclusion raw)) f bad_conclusion ≡ []
    → length (conclusion_of raw) ≤ max_text
conclusion-nil raw f h = ground arith

concluded-nil :
    (s : ExperimentState) (c f : Str)
    → issue_if (is_concluded s && not (truthy (trim c))) f conclusion_required ≡ []
    → s ≡ concluded
    → truthy (trim c) ≡ true
concluded-nil s c f h e = ground arith

keep_workload-valid :
    (w : Option ExperimentWorkload) (r : List ExperimentWorkload × List Issue)
    → all is_valid_workload r.0 ≡ true
    → all is_valid_workload (keep_workload w r).0 ≡ true
keep_workload-valid none r h = h
keep_workload-valid (some w) r h = ground arith

workload_items_valid : (items : Items) → all is_valid_workload (workload_items items).0 ≡ true
unfolding workload_items
workload_items_valid nil = refl
workload_items_valid (cons item rest) =
    keep_workload-valid (workload_source item) (workload_items rest) (workload_items_valid rest)

workloads_valid : (x : Value) → all is_valid_workload (workloads_of x).0 ≡ true
unfolding workloads_of
workloads_valid (array items) = workload_items_valid items
workloads_valid _ = refl

abbrev Tags : List Str × List Issue → Type 0
Tags r = All IsTag r.0 × IsDistinct r.0

checked_list-nil :
    (o : Option (List Str)) (f : Str) → (checked_list o f 64).1 ≡ [] → Tags (checked_list o f 64)
checked_list-nil none f h = (tt, tt)
checked_list-nil (some items) f h =
    let (sizes, distinct) = append-eq-nil _ _ h in
    (
      tags_trimmed items (issue_if-nil _ _ _ sizes),
      no_duplicates-IsDistinct (map trim items) (not-false _ (issue_if-nil _ _ _ distinct)),
    )

string_list-nil : (v : Value) (f : Str) → (string_list v f 64).1 ≡ [] → Tags (string_list v f 64)
unfolding string_list
string_list-nil v f h = checked_list-nil (strings_of v) f h

workloads-IsDistinct : (x : Value) → (workloads_of x).1 ≡ [] → IsDistinct (workloads_of x).0
unfolding workloads_of
workloads-IsDistinct (array items) h =
    let (i, d) = append-eq-nil _ _ h in
    IsDistinct-map workload_key (workload_items items).0
      (no_duplicates-IsDistinct _ (not-false _ (issue_if-nil _ _ _ d)))
workloads-IsDistinct _ h = tt

revision_bools :
    (a c : Bool) (n : ℕ) → (a && leb n 256 && c) ≡ true → (a ≡ true) × (n ≤ 256) × (c ≡ true)
revision_bools a c n h = ground (arith, h)

IsRevision-nil : (s : Str) → is_revision s ≡ true → IsRevision (some s)
unfolding is_revision
IsRevision-nil s h = revision_bools _ _ (length s) h

git_revision_of-IsRevision : (v : Value) → IsRevision (git_revision_of v).0
unfolding git_revision_of
git_revision_of-IsRevision (string []) = tt
git_revision_of-IsRevision (string (c ∷ s)) = elim (Bool-cases (is_revision (trim (c ∷ s)))) [
  | inl t ↦ rw t (IsRevision-nil (trim (c ∷ s)) t)
  | inr t ↦ rw t tt
]
git_revision_of-IsRevision _ = tt

checked-IsAccepted : (fs : Fields) → (checked fs).1 ≡ [] → IsAccepted (checked fs).0
unfolding checked
checked-IsAccepted fs h =
    let raw = prop (js "conclusion") fs in
    let s5 = state_of (raw_state fs) in
    let i6 : List Issue =
      issue_if (is_concluded s5.0 && not (truthy (trim (conclusion_of raw)))) (js "conclusion")
        conclusion_required in
    let i7 : List Issue =
      (string_list (raw_tags fs) (js "tags") 64).1
      ++ ((workloads_of (raw_workloads fs)).1
          ++ (git_revision_of (prop (js "gitRevision") fs)).1) in
    let (h1, r1) = append-eq-nil _ _ h in
    let (h2, r2) = append-eq-nil _ _ r1 in
    let (h3, r3) = append-eq-nil _ _ r2 in
    let (h4, r4) = append-eq-nil _ (s5.1 ++ (i6 ++ i7)) r3 in
    let (h5, r5) = append-eq-nil s5.1 (i6 ++ i7) r4 in
    let (h6, r6) = append-eq-nil i6 i7 r5 in
    let (h7, r7) = append-eq-nil (string_list (raw_tags fs) (js "tags") 64).1 _ r6 in
    let (h8, h9) = append-eq-nil (workloads_of (raw_workloads fs)).1 _ r7 in
    let tags = string_list-nil (raw_tags fs) (js "tags") h7 in
    let text1 = non_empty_string-nil _ _ h1 in
    let text2 = non_empty_string-nil _ _ h2 in
    let text3 = non_empty_string-nil _ _ h3 in
    record {
      hypothesis_given = text1.0;
      change_given = text2.0;
      observation_given = text3.0;
      concluded_given = concluded-nil s5.0 (conclusion_of raw) (js "conclusion") h6;
      lengths = (text1.1, text2.1, text3.1, conclusion-nil raw (js "conclusion") h4);
      workloads_valid = workloads_valid (raw_workloads fs);
      workloads_distinct = workloads-IsDistinct (raw_workloads fs) h8;
      tags_valid = tags.0;
      tags_distinct = tags.1;
      revision_valid = git_revision_of-IsRevision (prop (js "gitRevision") fs);
    }

pub validate-IsAccepted : (fs : Fields) (v : ExperimentInput) → validate fs ≡ ok v → IsAccepted v
unfolding validate
validate-IsAccepted fs v h =
    let (e, none_pushed) = finish-ok (checked fs).0 v (checked fs).1 h in
    subst IsAccepted e (checked-IsAccepted fs none_pushed)

-- What is accepted of an input has a hypothesis, a change and an observation that are not blank and a
-- conclusion if it is concluded, none of the four longer than 20,000 units; its tags are trimmed, not
-- empty and of at most 64 units, its workloads are valid, neither stand twice; and its revision, if it
-- has one, is of at most 256 letters, digits, points, underscores, slashes and dashes.
pub parse-IsAccepted :
    (x : Value) (v : ExperimentInput) → parse_experiment_input x ≡ ok v → IsAccepted v
unfolding parse_experiment_input
parse-IsAccepted x v h = elim (Option-cases (record_of x)) [
  | inl n ↦ cc (rw (n, parse_experiment_input) at h)
  | inr (fs, r) ↦ validate-IsAccepted fs v (rw (r, parse_experiment_input) at h)
]
