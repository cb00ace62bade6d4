-- ===== src/Timeline/Deletions.antt =====
-- A cleanup takes each observation with its entry.
use tracegarden.Prelude.{
  ℕ, ◌-◌, ◌*◌, ◌≡◌, refl, sym, ◌∙◌, ◌⊎◌, inl, inr, Bool, true, Option, none, some, List, [], ◌∷◌,
  arith, ltb, if◌then◌else◌, Bool-cases, Option-cases, some_inj, any, filter, Str, ◌===◌, ===_iff,
  ===_refl, trim, truthy,
}
use tracegarden.Prelude.Dates.{Dates}
use tracegarden.Prelude.Dict.{Dict, get, remove, values, KeysDistinct, remove-KeysDistinct}
use tracegarden.Prelude.Result.{Result-cases}
use tracegarden.Cluster.{Observation}
use tracegarden.Timeline.Records.{
  Entry, Store, Content, observed, experiment, ObservationEntry, ExperimentEntry,
}
use tracegarden.Timeline.Ingest.{observation_key, shows}
use tracegarden.Timeline.Retention.{
  day, remove_all, observation_keys, is_eligible, cleanup_before, cleanup_with, cleanup_retention,
  get_retention_policy, delete_entries,
}
use tracegarden.Timeline.Keyed.{get-remove_all}
use tracegarden.Timeline.Cleanup.{cleanup_before-entries, eligible_entries, cleanup_before-Keyed}
use tracegarden.Timeline.Linked.{IsLinked, IsSound}

remove_all-KeysDistinct {ℓ} :
    {V : Type ℓ} (ks : List Str) (m : Dict V) → KeysDistinct m → KeysDistinct (remove_all ks m)
unfolding remove_all
remove_all-KeysDistinct [] m h = h
remove_all-KeysDistinct (k ∷ ks) m h =
    remove_all-KeysDistinct ks (remove k m) (remove-KeysDistinct k m h)

any_key_more :
    (k : Str) (y : Entry) (es : List Entry)
    → any (λ j. j === k) (observation_keys es) ≡ true
    → any (λ j. j === k) (observation_keys (y ∷ es)) ≡ true
unfolding observation_keys
any_key_more k y es h = ground arith

Content-cases :
    (c : Content)
    → ((x : ObservationEntry) × (c ≡ observed x)) ⊎ ((x : ExperimentEntry) × (c ≡ experiment x))
Content-cases (observed x) = inl (x, refl)
Content-cases (experiment x) = inr (x, refl)

-- The key of an observation that an entry shows is among the keys that go with the entry.
any_key :
    (p : Entry → Bool) (id : Str) (m : Dict Entry) (e : Entry) (x : ObservationEntry)
    → get id m ≡ some e
    → p e ≡ true
    → e.content ≡ observed x
    → any (λ k. k === observation_key x.observation) (observation_keys (filter p (values m))) ≡ true
unfolding get observation_keys
any_key p id [] e x g h c = absurd cc
any_key p id ((j, y) ∷ m) e x g h c = elim (Bool-cases (j === id)) [
  | inl t ↦
      let same : y ≡ e = some_inj y e (rw t at g) in
      rw (same, h) (rw (c, observation_keys) (rw (===_refl (observation_key x.observation)) refl))
  | inr t ↦
      let later = any_key p id m e x (rw t at g) h c in
      elim (Bool-cases (p y)) [
        | inl q ↦ rw q (any_key_more (observation_key x.observation) y (filter p (values m)) later)
        | inr q ↦ rw q later
      ]
]

key_of_equal :
    (o x : Observation)
    → (x.workspace_id ≡ o.workspace_id)
      × (x.cluster_id ≡ o.cluster_id)
      × (x.source_key ≡ o.source_key)
    → observation_key x ≡ observation_key o
unfolding observation_key
key_of_equal o x (w, c, k) = rw (w, c, k) refl

-- An entry that shows an observation has the observation's key.
shown_key :
    (o : Observation) (e : Entry)
    → IsSound e
    → shows o e ≡ true
    → (x : ObservationEntry) × (e.content ≡ observed x)
      × (observation_key x.observation ≡ observation_key o)
unfolding observation_key
shown_key o e s h = elim (Content-cases e.content) [
  | inr (x, c) ↦ absurd (ground (arith, rw c at h))
  | inl (x, c) ↦ (
    x,
    c,
    key_of_equal o x.observation (
        ground (
          arith,
          rw c at h,
          rw c at s,
          ===_iff x.observation.source_key o.source_key,
          ===_iff e.workspace_id o.workspace_id,
          ===_iff x.cluster_id o.cluster_id,
        )),
  )
]

module _ (d : Dates) where
  cleanup_before-observations :
      (workspace : Str) (days cutoff : ℕ) (s : Store) (k : Str)
      → KeysDistinct s.observations
      → get k (cleanup_before d workspace days cutoff s).1.observations ≡ (
          if any
            (λ j. j === k)
            (observation_keys (filter (is_eligible d workspace cutoff s) (values s.entries)))
          then none
          else get k s.observations)
  unfolding cleanup_before delete_entries
  cleanup_before-observations workspace days cutoff s k h =
      rw (get-remove_all _ k s.observations h, eligible_entries d workspace cutoff s) refl

  -- The entry of an observation that a cleanup keeps is kept.
  kept_entry :
      (workspace : Str) (days cutoff : ℕ) (s : Store) (k : Str) (o : Observation) (i : Str)
      (e : Entry) (x : ObservationEntry)
      → IsLinked s
      → get i s.entries ≡ some e
      → e.content ≡ observed x
      → observation_key x.observation ≡ k
      → get k (cleanup_before d workspace days cutoff s).1.observations ≡ some o
      → get i (cleanup_before d workspace days cutoff s).1.entries ≡ some e
  kept_entry workspace days cutoff s k o i e x l f c j g =
      cleanup_before-entries d workspace days cutoff s i l.keyed
      ∙ rw f (elim (Bool-cases (is_eligible d workspace cutoff s e)) [
        | inr t ↦ rw t refl
        | inl t ↦ absurd (
            let gone = any_key (is_eligible d workspace cutoff s) i s.entries e x f t c in
            let after = cleanup_before-observations workspace days cutoff s k l.keys in
            ground (arith, g, (rw j at gone), after))
      ])

  cleanup_before-IsLinked :
      (workspace : Str) (days cutoff : ℕ) (s : Store)
      → IsLinked s
      → IsLinked (cleanup_before d workspace days cutoff s).1
  cleanup_before-IsLinked workspace days cutoff s l =
      let s' = (cleanup_before d workspace days cutoff s).1 in
      let entries = λ (id : Str). cleanup_before-entries d workspace days cutoff s id l.keyed in
      record {
        keyed = cleanup_before-Keyed d workspace days cutoff s l.keyed;
        keys =
            unfold cleanup_before delete_entries in remove_all-KeysDistinct _ s.observations l.keys;
        sound = λ i e g. l.sound i e (ground (arith, g, entries i));
        shown = λ k o g.
            let kept : get k s.observations ≡ some o =
              ground (arith, g, cleanup_before-observations workspace days cutoff s k l.keys) in
            let (q, p, (i, e, f, v)) = l.shown k o kept in
            let (x, c, j) = shown_key o e (l.sound i e f) v in
            (q, p, (i, e, kept_entry workspace days cutoff s k o i e x l f c (j ∙ sym q) g, v));
      }

  cleanup_with-IsLinked :
      (workspace : Str) (at : Option ℕ) (days : ℕ) (s : Store)
      → IsLinked s
      → IsLinked (cleanup_with d workspace at days s).1
  unfolding cleanup_with
  cleanup_with-IsLinked workspace none days s l = l
  cleanup_with-IsLinked workspace (some t) days s l = elim (Bool-cases (ltb t (days * day))) [
    | inl e ↦ rw e l
    | inr e ↦ rw e (cleanup_before-IsLinked workspace days (t - days * day) s l)
  ]

  get_retention_policy-IsLinked :
      (now : ℕ) (workspace : Str) (s : Store)
      → IsLinked s
      → IsLinked (get_retention_policy d now workspace s).1
  unfolding get_retention_policy
  get_retention_policy-IsLinked now workspace s l = elim (Bool-cases (truthy (trim workspace))) [
    | inr e ↦ rw e l
    | inl e ↦ elim (Option-cases (get workspace s.policies)) [
      | inr (p, g) ↦ rw (e, get_retention_policy, g) l
      | inl g ↦
          rw (e, get_retention_policy, g)
            (record { keyed = l.keyed; keys = l.keys; sound = l.sound; shown = l.shown })
    ]
  ]

  -- A cleanup, whatever its outcome, keeps the invariant of ingestion: entries and observations stand
  -- once under their keys, and each observation has an entry that shows it.
  pub cleanup_retention-IsLinked :
      (now : ℕ) (workspace : Str) (at : Option ℕ) (s : Store)
      → IsLinked s
      → IsLinked (cleanup_retention d now workspace at s).1
  unfolding cleanup_retention
  cleanup_retention-IsLinked now workspace at s l =
      let s' = (get_retention_policy d now workspace s).1 in
      let l' = get_retention_policy-IsLinked now workspace s l in
      elim (Result-cases (get_retention_policy d now workspace s).0) [
        | inl (x, r) ↦ rw (r, cleanup_retention) l'
        | inr (y, r) ↦
            rw (r, cleanup_retention) (cleanup_with-IsLinked workspace at y.retention_days s' l')
      ]
