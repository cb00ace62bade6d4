-- ===== src/Timeline/Batches.antt =====
-- Batches of observations: none fails, and a batch that is recorded again changes nothing.
use tracegarden.Prelude.{
  suc, ◌≡◌, refl, sym, ap, ◌∙◌, subst, inl, inr, Bool, true, Option, none, some, List, [], ◌∷◌, map,
  arith, if◌then◌else◌, Option-cases, length, all, Str, ◌===◌, ===_iff, ===_refl,
}
use tracegarden.Prelude.Dict.{Dict, get, get-set}
use tracegarden.Prelude.Result.{Result, ok, err, ok_inj}
use tracegarden.Cluster.{Observation}
use tracegarden.Timeline.Records.{Checkpoint, Store, TimelineError, CheckpointInput}
use tracegarden.Timeline.Ingest.{
  put_optional, Ingested, observation_key, store_observation, ingest, ingest_all, cons_result,
  commit, record_observations_internal,
}
use tracegarden.Timeline.Replaced.{put_optional-same}
use tracegarden.Timeline.Linked.{IsLinked, IsPlain, ingest_known, store_observation-IsLinked}

-- `randomUUID` returns the id of no entry that is there, and no observation has a NUL in the names of
-- its workspace and its cluster.
abbrev pub AreRecordable : List (Str × Observation) → Store → Type 0
AreRecordable [] s = Unit
AreRecordable ((id, o) ∷ rest) s =
    (get id s.entries ≡ none) × IsPlain o × AreRecordable rest (ingest id o s).1

-- One round: it succeeds, keeps the invariant, and after it the observation is known, as all those are
-- that were known before.
ingest_new :
    (id : Str) (o : Observation) (s : Store)
    → get (observation_key o) s.observations ≡ none
    → ingest id o s ≡ (ok (store_observation id o s).0, (store_observation id o s).1)
unfolding ingest
ingest_new id o s g = rw (g, ingest) refl

store_observation-get :
    (id : Str) (o : Observation) (s : Store) (j : Str)
    → get j (store_observation id o s).1.observations ≡ (
        if observation_key o === j
        then some (store_observation id o s).0.observation
        else get j s.observations)
unfolding store_observation
store_observation-get id o s j = get-set _ j _ s.observations

abbrev Round : Str → Observation → Store → Type 0
Round id o s =
    ((r : Ingested) × ((ingest id o s).0 ≡ ok r))
    × IsLinked (ingest id o s).1
    × ((x : Observation) × (get (observation_key o) (ingest id o s).1.observations ≡ some x))
    × ((k : Str) (x : Observation)
        → get k s.observations ≡ some x
        → get k (ingest id o s).1.observations ≡ some x)

ingest-Round :
    (id : Str) (o : Observation) (s : Store)
    → get id s.entries ≡ none
    → IsPlain o
    → IsLinked s
    → Round id o s
ingest-Round id o s f p l = elim (Option-cases (get (observation_key o) s.observations)) [
  | inr (x, g) ↦ let (e, r) = ingest_known id o x s l p g in rw r ((_, refl), l, (x, g), λ k y h. h)
  | inl g ↦
      let get_stored = store_observation-get id o s in
      rw (ingest_new id o s g) (
        (_, refl),
        store_observation-IsLinked id o s f p l,
        (
          (store_observation id o s).0.observation,
          get_stored (observation_key o) ∙ rw (===_refl (observation_key o)) refl,
        ),
        λ k x h. get_stored k ∙ ground (arith, g, h, ===_iff (observation_key o) k),
      )
]

-- The store knows each of the observations.
abbrev pub Knows : List (Str × Observation) → Store → Type 0
Knows [] s = Unit
Knows ((id, o) ∷ rest) s =
    ((x : Observation) × (get (observation_key o) s.observations ≡ some x))
    × IsPlain o
    × Knows rest s

abbrev Keeps : Store → Store → Type 0
Keeps s s' =
    (k : Str) (x : Observation) → get k s.observations ≡ some x → get k s'.observations ≡ some x

abbrev pub are_duplicates : List Ingested → Bool
are_duplicates results = all (λ r. r.duplicate) results

cons_ok :
    (x : Ingested) (xs : List Ingested) (r : Result TimelineError (List Ingested) × Store)
    → r.0 ≡ ok xs
    → (cons_result x r).0 ≡ ok (x ∷ xs)
cons_ok x xs (ok ys, s) h = ap (λ zs. ok (x ∷ zs)) (ok_inj ys xs h)
cons_ok x xs (err e, s) h = absurd cc

cons_kept :
    (x : Ingested) (xs : List Ingested) (r : Result TimelineError (List Ingested) × Store)
    → r.0 ≡ ok xs
    → (cons_result x r).1 ≡ r.1
cons_kept x xs (ok ys, s) h = refl
cons_kept x xs (err e, s) h = refl

-- A batch of observations that the store may record is recorded: no entry is missing, and afterwards
-- the store knows all of them.
pub ingest_all-Knows :
    (observations : List (Str × Observation)) (s : Store)
    → AreRecordable observations s
    → IsLinked s
    → let r = ingest_all observations s in
      ((results : List Ingested) × (r.0 ≡ ok results) × (length results ≡ length observations))
      × IsLinked r.1
      × Knows observations r.1
      × Keeps s r.1
unfolding ingest_all
ingest_all-Knows [] s a l = (([], refl, refl), l, tt, λ k x h. h)
ingest_all-Knows ((id, o) ∷ rest) s (f, p, a) l =
    let ((x, e), l', (y, g), keeps) = ingest-Round id o s f p l in
    let ((xs, e', n), l'', known, keeps') = ingest_all-Knows rest (ingest id o s).1 a l' in
    let r = ingest_all rest (ingest id o s).1 in
    (
      (x ∷ xs, rw (e, ingest_all) (cons_ok x xs r e'), ap suc n),
      rw (e, ingest_all) (rw (cons_kept x xs r e') l''),
      (
        (y, rw (e, ingest_all) (rw (cons_kept x xs r e') (keeps' (observation_key o) y g))),
        p,
        rw (e, ingest_all) (rw (cons_kept x xs r e') known),
      ),
      λ k z h. rw (e, ingest_all) (rw (cons_kept x xs r e') (keeps' k z (keeps k z h))),
    )

-- Known observations come back as duplicates, and the store stays as it is.
pub ingest_all_known :
    (observations : List (Str × Observation)) (s : Store)
    → Knows observations s
    → IsLinked s
    → (results : List Ingested) × (ingest_all observations s ≡ (ok results, s))
      × (length results ≡ length observations)
      × (are_duplicates results ≡ true)
unfolding ingest_all
ingest_all_known [] s k l = ([], refl, refl, refl)
ingest_all_known ((id, o) ∷ rest) s ((x, g), p, k) l =
    let (e, r) = ingest_known id o x s l p g in
    let (results, q, n, t) = ingest_all_known rest s k l in
    let again : Ingested = record { observation = x; entry = e; duplicate = true } in
    (again ∷ results, rw (r, ingest_all) (rw (r, q) refl), ap suc n, t)

IsLinked-checkpoints :
    (s : Store) (c : Dict Checkpoint) → IsLinked s → IsLinked (record s { checkpoints = c })
IsLinked-checkpoints s c l = record {
  keyed = l.keyed;
  keys = l.keys;
  sound = l.sound;
  shown = l.shown;
}

Knows-checkpoints :
    (observations : List (Str × Observation)) (s : Store) (c : Dict Checkpoint)
    → Knows observations s
    → Knows observations (record s { checkpoints = c })
Knows-checkpoints [] s c k = tt
Knows-checkpoints ((id, o) ∷ rest) s c (g, p, k) = (g, p, Knows-checkpoints rest s c k)

commit_ok :
    (now : Str) (checkpoint : Option CheckpointInput) (s : Store)
    (r : Result TimelineError (List Ingested) × Store) (results : List Ingested)
    → r.0 ≡ ok results
    → commit now checkpoint s r
      ≡ (ok results, record r.1 { checkpoints = put_optional now checkpoint r.1.checkpoints })
commit_ok now checkpoint s (ok x, s') results h =
    ap (λ y. (ok y, record s' { checkpoints = put_optional now checkpoint s'.checkpoints }))
      (ok_inj x results h)
commit_ok now checkpoint s (err x, s') results h = absurd cc

-- A batch without NULs in the names of its workspaces and clusters, for which each new entry gets an
-- id that no entry has, is recorded in a store that keeps the invariant of ingestion: the call
-- returns one result for each observation and keeps the invariant, and the store then knows every
-- observation of the batch.
pub record_observations_internal-Knows :
    (now : Str) (observations : List (Str × Observation)) (checkpoint : Option CheckpointInput)
    (s : Store)
    → AreRecordable observations s
    → IsLinked s
    → let r = record_observations_internal now observations checkpoint s in
      ((results : List Ingested) × (r.0 ≡ ok results) × (length results ≡ length observations))
      × IsLinked r.1
      × Knows observations r.1
unfolding record_observations_internal
record_observations_internal-Knows now observations checkpoint s a l =
    let ((results, e, n), l', k, keeps) = ingest_all-Knows observations s a l in
    rw (commit_ok now checkpoint s (ingest_all observations s) results e)
      ((results, refl, n), IsLinked-checkpoints _ _ l', Knows-checkpoints observations _ _ k)

Knows-same :
    (observations again : List (Str × Observation)) (s : Store)
    → map (λ p. p.1) again ≡ map (λ p. p.1) observations
    → Knows observations s
    → Knows again s
Knows-same [] [] s e k = tt
Knows-same [] (p ∷ again) s e k = absurd cc
Knows-same ((id, o) ∷ rest) [] s e k = absurd cc
Knows-same ((id, o) ∷ rest) ((id', o') ∷ again) s e (g, p, k) =
    let q : o ≡ o' = cc in
    let same : map (λ p. p.1) again ≡ map (λ p. p.1) rest = cc in
    (
      subst (λ y. (x : Observation) × (get (observation_key y) s.observations ≡ some x)) q g,
      subst IsPlain q p,
      Knows-same rest again s same k,
    )

-- A batch that was recorded in a store that keeps the invariant of ingestion, without NULs in the names
-- of its workspaces and clusters and with new ids for its entries, is recorded a second time, under
-- any ids and at any later position: each result says that it is a duplicate, and nothing of the store
-- changes but its positions, into which the new one is put. Without a position, or at the position of
-- the first time, the store does not change at all.
pub record_observations_internal_again :
    (now later : Str) (observations again : List (Str × Observation))
    (checkpoint second : Option CheckpointInput) (s : Store)
    → AreRecordable observations s
    → IsLinked s
    → map (λ p. p.1) again ≡ map (λ p. p.1) observations
    → let s' = (record_observations_internal now observations checkpoint s).1 in
      let r = record_observations_internal later again second s' in
      (results : List Ingested) × (r
        ≡ (ok results, record s' { checkpoints = put_optional later second s'.checkpoints }))
      × (length results ≡ length again)
      × (are_duplicates results ≡ true)
      × (record_observations_internal later again none s' ≡ (ok results, s'))
      × (record_observations_internal later again checkpoint s' ≡ (ok results, s'))
unfolding record_observations_internal
record_observations_internal_again now later observations again checkpoint second s a l same =
    let ((first, fe, fn), fl, fk, keeps) = ingest_all-Knows observations s a l in
    let (r, l', k) = record_observations_internal-Knows now observations checkpoint s a l in
    let s' = (record_observations_internal now observations checkpoint s).1 in
    let (results, e, n, t) =
      ingest_all_known again s' (Knows-same observations again s' same k) l' in
    let put : s'.checkpoints
        ≡ put_optional now checkpoint (ingest_all observations s).1.checkpoints =
      rw (commit_ok now checkpoint s (ingest_all observations s) first fe) refl in
    let again_put : put_optional later checkpoint s'.checkpoints ≡ s'.checkpoints =
      ap (put_optional later checkpoint) put
      ∙ put_optional-same now later checkpoint (ingest_all observations s).1.checkpoints
      ∙ sym put in
    (
      results,
      rw e refl,
      n,
      t,
      rw e refl,
      rw e (ap (λ m. (ok results, record s' { checkpoints = m })) again_put),
    )
