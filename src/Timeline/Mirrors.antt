-- ===== src/Timeline/Mirrors.antt =====
-- The entry of an experiment shows it as it is.
use tracegarden.Prelude.{
  ℕ, ◌≡◌, refl, sym, ap, ◌∙◌, inl, inr, Bool, true, false, none, some, List, [], ◌∷◌, arith,
  Bool-cases, Option-cases, some_inj, Str, ◌===◌, ===_iff, ===_refl,
}
use tracegarden.Prelude.Dates.{Dates}
use tracegarden.Prelude.Dict.{Dict, get, set, get-set}
use tracegarden.Prelude.Value.{Value}
use tracegarden.Prelude.Result.{Result, ok, err, ok_inj, Result-cases}
use tracegarden.Domain.Experiment.{ExperimentRecord, ExperimentWorkload, parse_experiment_input}
use tracegarden.Domain.Lifecycle.{create_experiment_record, update_experiment_record}
use tracegarden.Domain.Lifecycle.Updates.{update_experiment_record-Updates}
use tracegarden.Timeline.Records.{
  Entry, Content, observed, experiment, Store, TimelineError, experiment_entry_missing,
}
use tracegarden.Timeline.Decisions.{refresh_correlation_suggestions}
use tracegarden.Timeline.Recording.{
  content_of, store_experiment, replace_experiment, is_experiment, validate_experiment_clusters,
  replaced, create_experiment, update_experiment,
}

-- The experiment stands under its id, and its entry shows it.
abbrev pub IsMirrored : Str → ExperimentRecord → Dict Entry → Type 0
IsMirrored id x entries =
    (id ≡ x.id)
    × ((e : Entry) × (get x.timeline_entry_id entries ≡ some e) × (e.content ≡ content_of x))

pub record Mirrors (s : Store) : Type 0 where
  pub mirrored :
      (id : Str) (x : ExperimentRecord) → get id s.experiments ≡ some x → IsMirrored id x s.entries

IsMirrored-set :
    (id k : Str) (x : ExperimentRecord) (e : Entry) (m : Dict Entry)
    → id ≡ x.id
    → k ≡ x.timeline_entry_id
    → e.content ≡ content_of x
    → IsMirrored id x (set k e m)
IsMirrored-set id k x e m i t c =
    (i, (e, get-set k x.timeline_entry_id e m ∙ rw t (rw (===_refl x.timeline_entry_id) refl), c))

IsMirrored-set_other :
    (id k : Str) (x : ExperimentRecord) (e : Entry) (m : Dict Entry)
    → (k === x.timeline_entry_id) ≡ false
    → IsMirrored id x m
    → IsMirrored id x (set k e m)
IsMirrored-set_other id k x e m n (i, (y, q, c)) =
    (i, (y, get-set k x.timeline_entry_id e m ∙ rw n q, c))

content_of_inj : (x y : ExperimentRecord) → content_of x ≡ content_of y → x ≡ y
content_of_inj x y h = ap shown h
  where
    shown : Content → ExperimentRecord
    shown (observed o) = x
    shown (experiment e) = e.experiment

-- A key under which there is no entry, or that of another experiment, is not the entry's.
fresh_key :
    (k id : Str) (x : ExperimentRecord) (m : Dict Entry)
    → get k m ≡ none
    → IsMirrored id x m
    → (k === x.timeline_entry_id) ≡ false
fresh_key k id x m g (i, (e, q, c)) = elim (Bool-cases (k === x.timeline_entry_id)) [
  | inr t ↦ t
  | inl t ↦ absurd (ground (arith, g, q, ===_iff k x.timeline_entry_id, t))
]

other_key :
    (j id : Str) (x y : ExperimentRecord) (m : Dict Entry)
    → (j === id) ≡ false
    → IsMirrored j x m
    → IsMirrored id y m
    → (x.timeline_entry_id === y.timeline_entry_id) ≡ false
other_key j id x y m n (i, (e, q, c)) (i', (e', q', c')) =
    elim (Bool-cases (x.timeline_entry_id === y.timeline_entry_id)) [
      | inr t ↦ t
      | inl t ↦
          let key = (===_iff x.timeline_entry_id y.timeline_entry_id).0 t in
          let entry : e ≡ e' = some_inj e e' (sym q ∙ ap (λ k. get k m) key ∙ q') in
          let same : x ≡ y = content_of_inj x y (sym c ∙ ap (λ z. z.content) entry ∙ c') in
          absurd (ground (arith, n, ===_iff j id, i ∙ ap (λ z. z.id) same ∙ sym i'))
    ]

pub store_experiment-Mirrors :
    (x : ExperimentRecord) (s : Store)
    → get x.id s.experiments ≡ none
    → get x.timeline_entry_id s.entries ≡ none
    → Mirrors s
    → Mirrors (store_experiment x s)
unfolding store_experiment
store_experiment-Mirrors x s f g m = record {
  mirrored = λ id y h. elim (Bool-cases (x.id === id)) [
    | inl t ↦
        let same : x ≡ y = some_inj x y (rw (get-set, t) at h) in
        IsMirrored-set id x.timeline_entry_id y _ s.entries
          (sym ((===_iff x.id id).0 t) ∙ ap (λ z. z.id) same) (ap (λ z. z.timeline_entry_id) same)
          (ap content_of same)
    | inr t ↦
        let old = m.mirrored id y (rw (get-set, t) at h) in
        IsMirrored-set_other id x.timeline_entry_id y _ s.entries
          (fresh_key x.timeline_entry_id id y s.entries g old) old
  ];
}

replace_experiment-Mirrors :
    (id : Str) (x y : ExperimentRecord) (e : Entry) (s : Store)
    → get id s.experiments ≡ some x
    → y.id ≡ x.id
    → y.timeline_entry_id ≡ x.timeline_entry_id
    → Mirrors s
    → Mirrors (replace_experiment id y e s)
unfolding replace_experiment
replace_experiment-Mirrors id x y e s g i t m = record {
  mirrored = λ j z h. elim (Bool-cases (id === j)) [
    | inl q ↦
        let same : y ≡ z = some_inj y z (rw (get-set, q) at h) in
        IsMirrored-set j y.timeline_entry_id z _ s.entries
          (sym ((===_iff id j).0 q) ∙ (m.mirrored id x g).0 ∙ sym i ∙ ap (λ w. w.id) same)
          (ap (λ w. w.timeline_entry_id) same) (ap content_of same)
    | inr q ↦
        let old = m.mirrored j z (rw (get-set, q) at h) in
        IsMirrored-set_other j y.timeline_entry_id z _ s.entries
          (rw t (other_key id j x z s.entries q (m.mirrored id x g) old)) old
  ];
}

refresh-Mirrors :
    (d : Dates) (ids : ℕ → Str) (now workspace : Str) (s : Store)
    → Mirrors s
    → Mirrors (refresh_correlation_suggestions d ids now workspace s)
unfolding refresh_correlation_suggestions
refresh-Mirrors d ids now workspace s m = record { mirrored = m.mirrored }

-- The answers of an update, of which none is that the entry is missing.
abbrev pub misses_entry : {A : Type 0} → Result TimelineError A → Bool
misses_entry (ok a) = false
misses_entry (err e) = elim e [ experiment_entry_missing ↦ true | _ ↦ false ]

created_ids :
    (id workspace member_id entry_id now : Str) (input : Value) (x : ExperimentRecord)
    → create_experiment_record id workspace member_id entry_id now input ≡ ok x
    → (x.id ≡ id) × (x.timeline_entry_id ≡ entry_id)
unfolding create_experiment_record
created_ids id workspace member_id entry_id now input x h =
    elim (Result-cases (parse_experiment_input input)) [
      | inl (e, q) ↦ absurd cc (rw (q, create_experiment_record) at h)
      | inr (v, q) ↦
          let same = ok_inj _ x (rw (q, create_experiment_record) at h) in
          (sym (ap (λ z. z.id) same), sym (ap (λ z. z.timeline_entry_id) same))
    ]

validate-finds :
    (workspace : Str) (ws : List ExperimentWorkload) (s : Store)
    → misses_entry (validate_experiment_clusters workspace ws s) ≡ false
unfolding validate_experiment_clusters
validate-finds workspace [] s = refl
validate-finds workspace (w ∷ ws) s = ground arith

module _ (d : Dates) (ids : Str → ℕ → Str) where
  -- If each experiment stands under its id and its entry shows it as it is, then that is so after a
  -- new experiment is created, with ids that no experiment and no entry has, or refused.
  pub create_experiment-Mirrors :
      (id entry_id now workspace member_id : Str) (input : Value) (s : Store)
      → get id s.experiments ≡ none
      → get entry_id s.entries ≡ none
      → Mirrors s
      → Mirrors (create_experiment d ids id entry_id now workspace member_id input s).1
  unfolding create_experiment
  create_experiment-Mirrors id entry_id now workspace member_id input s f g m =
      elim (Result-cases (create_experiment_record id workspace member_id entry_id now input)) [
        | inl (e, q) ↦ rw (q, create_experiment) m
        | inr (x, q) ↦
            elim (Result-cases (validate_experiment_clusters workspace x.input.workloads s)) [
              | inl (e, v) ↦ rw (q, create_experiment, v) m
              | inr (u, v) ↦
                  let (i, t) = created_ids id workspace member_id entry_id now input x q in
                  rw (q, create_experiment, v)
                    (refresh-Mirrors d (ids workspace) now workspace (store_experiment x s)
                      (store_experiment-Mirrors x s (rw i f) (rw t g) m))
            ]
      ]

  replaced-Mirrors :
      (now workspace id : Str) (x y : ExperimentRecord) (s : Store)
      → get id s.experiments ≡ some x
      → y.id ≡ x.id
      → y.timeline_entry_id ≡ x.timeline_entry_id
      → Mirrors s
      → let r = replaced d ids id now workspace y s (get x.timeline_entry_id s.entries) in
        Mirrors r.1 × (misses_entry r.0 ≡ false)
  replaced-Mirrors now workspace id x y s g i t m =
      let (k, (e, q, c)) = m.mirrored id x g in
      let shown : is_experiment e ≡ true = rw c refl in
      rw (q, shown)
        (
          refresh-Mirrors d (ids workspace) now workspace (replace_experiment id y e s)
              (replace_experiment-Mirrors id x y e s g i t m),
          refl,
        )

  -- If each experiment stands under its id and its entry shows it as it is, then that is so after any
  -- request for an update, which never finds the entry missing.
  pub update_experiment-Mirrors :
      (now workspace id : Str) (input : Value) (s : Store)
      → Mirrors s
      → Mirrors (update_experiment d ids now workspace id input s).1
        × (misses_entry (update_experiment d ids now workspace id input s).0 ≡ false)
  unfolding update_experiment
  update_experiment-Mirrors now workspace id input s m =
      elim (Option-cases (get id s.experiments)) [
        | inl g ↦ rw (g, update_experiment) (m, refl)
        | inr (x, g) ↦ elim (Bool-cases (x.workspace_id === workspace)) [
          | inr w ↦ rw (g, update_experiment, w) (m, refl)
          | inl w ↦ elim (Result-cases (update_experiment_record x input now)) [
            | inl (e, q) ↦ rw (g, update_experiment, w, q) (m, refl)
            | inr (y, q) ↦
                elim (Result-cases (validate_experiment_clusters workspace y.input.workloads s)) [
                  | inl (e, v) ↦
                      rw (g, update_experiment, w, q, v)
                        (m, rw v at (validate-finds workspace y.input.workloads s))
                  | inr (u, v) ↦
                      let moved = update_experiment_record-Updates x y input now q in
                      rw (g, update_experiment, w, q, v)
                        (replaced-Mirrors now workspace id x y s g moved.same_id moved.same_entry m)
                ]
          ]
        ]
      ]
