-- ===== src/Timeline/Linked.antt =====
-- The invariant that ties observations to their entries, and what keeps it.
use tracegarden.Prelude.{
  ℕ, ◌+◌, ◌≡◌, refl, sym, ◌∙◌, subst, inl, inr, Bool, true, false, Option, none, some, [], ◌∷◌,
  ◌++◌, arith, ◌==◌, Bool-cases, some_inj, any, find, Str, ◌===◌, ===_iff, ===_refl,
}
use tracegarden.Prelude.Dict.{Dict, get, set, values, KeysDistinct, get-set, set-KeysDistinct}
use tracegarden.Prelude.Result.{ok}
use tracegarden.Cluster.{Observation, mark_recovery}
use tracegarden.Timeline.Records.{Entry, observed, experiment, Store}
use tracegarden.Timeline.Ingest.{
  shows, observation_key, timeline_entry_for, previous_of, store_observation, ingest,
}
use tracegarden.Timeline.Keyed.{Keyed}

-- No NUL in the text, so that it ends where a key's separator stands.
abbrev pub has_nul : Str → Bool
has_nul s = any (λ c. c == 0) s

abbrev pub IsPlain : Observation → Type 0
IsPlain o = (has_nul o.workspace_id ≡ false) × (has_nul o.cluster_id ≡ false)

split_nul :
    (a b a' b' : Str)
    → has_nul a ≡ false
    → has_nul a' ≡ false
    → a ++ (0 ∷ b) ≡ a' ++ (0 ∷ b')
    → (a ≡ a') × (b ≡ b')
split_nul [] b [] b' h h' e = (refl, cc)
split_nul [] b (x ∷ a') b' h h' e = ground arith
split_nul (x ∷ a) b [] b' h h' e = ground arith
split_nul (x ∷ a) b (y ∷ a') b' h h' e =
    let (p, q) = split_nul a b a' b' (ground arith) (ground arith) cc in (cc, q)

-- Observations without NULs in their workspaces and clusters have one key only if they agree on both
-- and on the source's key.
pub observation_key_inj :
    (o x : Observation)
    → IsPlain o
    → IsPlain x
    → observation_key o ≡ observation_key x
    → (o.workspace_id ≡ x.workspace_id)
      × (o.cluster_id ≡ x.cluster_id)
      × (o.source_key ≡ x.source_key)
unfolding observation_key
observation_key_inj o x p q e =
    let (w, r) = split_nul o.workspace_id _ x.workspace_id _ p.0 q.0 e in
    let (c, k) = split_nul o.cluster_id _ x.cluster_id _ p.1 q.1 r in (w, c, k)

abbrev pub IsSound : Entry → Type 0
IsSound e = elim e.content [
  | observed x ↦
      (e.workspace_id ≡ x.observation.workspace_id) × (x.cluster_id ≡ x.observation.cluster_id)
  | experiment x ↦ Unit
]

-- The observation under a key.
abbrev pub IsShown : Str → Observation → Dict Entry → Type 0
IsShown k o entries =
    (k ≡ observation_key o)
    × IsPlain o
    × ((id : Str) × (e : Entry) × (get id entries ≡ some e) × (shows o e ≡ true))

-- Observations and entries stand under their keys, and each observation has an entry.
pub record IsLinked (s : Store) : Type 0 where
  pub keyed : Keyed s.entries
  pub keys : KeysDistinct s.observations
  pub sound : (id : Str) (e : Entry) → get id s.entries ≡ some e → IsSound e
  pub shown : (k : Str) (o : Observation) → get k s.observations ≡ some o → IsShown k o s.entries

find-get :
    (p : Entry → Bool) (id : Str) (m : Dict Entry) (e : Entry)
    → get id m ≡ some e
    → p e ≡ true
    → (x : Entry) × (find p (values m) ≡ some x)
unfolding get
find-get p id [] e g h = absurd cc
find-get p id ((k, x) ∷ m) e g h = elim (Bool-cases (p x)) [
  | inl t ↦ (x, rw t refl)
  | inr t ↦ let (y, f) = find-get p id m e (ground arith) h in (y, rw t f)
]

shows_same :
    (o x : Observation) (e : Entry)
    → o.workspace_id ≡ x.workspace_id
    → o.cluster_id ≡ x.cluster_id
    → o.source_key ≡ x.source_key
    → shows x e ≡ true
    → shows o e ≡ true
shows_same o x e w c k h = rw (w, c, k) h

-- An observation that is known is found with its entry, and nothing changes.
pub ingest_known :
    (id : Str) (o x : Observation) (s : Store)
    → IsLinked s
    → IsPlain o
    → get (observation_key o) s.observations ≡ some x
    → (e : Entry) × (ingest id o s
        ≡ (ok (record { observation = x; entry = e; duplicate = true }), s))
unfolding ingest
ingest_known id o x s l p g =
    let (k, q, (i, e, f, h)) = l.shown _ x g in
    let (w, c, y) = observation_key_inj o x p q k in
    let (e', r) = find-get (shows o) i s.entries e f (shows_same o x e w c y h) in
    (e', rw (g, ingest, r) refl)

pub Keyed-set_new :
    (k : Str) (e : Entry) (m : Dict Entry) → get k m ≡ none → e.id ≡ k → Keyed m → Keyed (set k e m)
unfolding get set
Keyed-set_new k e [] g i h = (i, refl, tt)
Keyed-set_new k e ((j, x) ∷ m) g i h = elim (Bool-cases (j === k)) [
  | inl t ↦ absurd (ground arith)
  | inr t ↦ rw t (
    h.0,
    rw get-set (ground (arith, h, ===_iff k j, ===_iff j k)),
    Keyed-set_new k e m (ground arith) i h.2,
  )
]

mark_recovery_same :
    (o : Observation) (p : Option Observation)
    → let o' = mark_recovery o p in
      (o'.workspace_id ≡ o.workspace_id)
      × (o'.cluster_id ≡ o.cluster_id)
      × (o'.source_key ≡ o.source_key)
unfolding mark_recovery
mark_recovery_same o p = ground arith

pub mark_recovery-key :
    (o : Observation) (p : Option Observation)
    → observation_key (mark_recovery o p) ≡ observation_key o
unfolding observation_key
mark_recovery-key o p = let (w, c, k) = mark_recovery_same o p in rw (w, c, k) refl

shows_itself : (o : Observation) (id : Str) (n : ℕ) → shows o (timeline_entry_for id o n) ≡ true
unfolding timeline_entry_for
shows_itself o id n =
    rw (===_refl o.source_key, ===_refl o.workspace_id, ===_refl o.cluster_id) refl

-- A new observation is stored with its entry.
pub store_observation-IsLinked :
    (id : Str) (o : Observation) (s : Store)
    → get id s.entries ≡ none
    → IsPlain o
    → IsLinked s
    → IsLinked (store_observation id o s).1
unfolding store_observation timeline_entry_for
store_observation-IsLinked id o s f p l =
    let m = mark_recovery o (previous_of o s) in
    let entry = timeline_entry_for id m (s.next_sequence + 1) in
    let entries = set id entry s.entries in
    let (w, c, k) = mark_recovery_same o (previous_of o s) in
    record {
      keyed = Keyed-set_new id _ s.entries f refl l.keyed;
      keys = set-KeysDistinct (observation_key o) m s.observations l.keys;
      sound = λ i e g. elim (Bool-cases (id === i)) [
        | inl t ↦ subst IsSound (some_inj _ _ (rw (get-set, t) at g)) (refl, refl)
        | inr t ↦ l.sound i e (rw (get-set, t) at g)
      ];
      shown = λ j x g. elim (Bool-cases (observation_key o === j)) [
        | inl t ↦
            subst (λ y. IsShown j y entries) (some_inj _ _ (rw (get-set, t) at g))
              (
                sym ((===_iff (observation_key o) j).0 t) ∙ sym (mark_recovery-key o _),
                (rw w p.0, rw c p.1),
                (id, entry, rw get-set (rw ===_refl refl), shows_itself m id (s.next_sequence + 1)),
              )
        | inr t ↦
            let (e, q, (i, y, h, v)) = l.shown j x (rw (get-set, t) at g) in
            (e, q, (i, y, rw get-set (ground (arith, ===_iff id i)), v))
      ];
    }
