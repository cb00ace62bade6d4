-- ===== src/Timeline/Checkpoints.antt =====
-- The methods of `MemoryObservationStore` on checkpoints in packages/db/src/index.ts, and the order
-- in which positions move.
use tracegarden.Prelude.{
  ◌≤◌, ◌≡◌, refl, sym, ◌∙◌, subst, inl, inr, true, Option, some, List, [], ◌∷◌, arith, Bool-cases,
  Option-cases, some_inj, All, Str, ◌===◌, ===_iff, ===_refl,
}
use tracegarden.Prelude.Dict.{Dict, get, set, remove, get-set}
use tracegarden.Prelude.Result.{Result, ok, err}
use tracegarden.Cluster.{should_replace}
use tracegarden.Prelude.Value.{is_decimal, decimal}
use tracegarden.Cluster.Versions.{should_replace-le, should_replace-lt}
use tracegarden.Timeline.Records.{Checkpoint, CheckpointInput, Store, TimelineError}
use tracegarden.Timeline.Ingest.{checkpoint_key, put_checkpoint, validate_configured_cluster}

abbrev pub Reply : Type 0 → Type 0
Reply A = Result TimelineError A × Store

unfoldable pub advance_ingestion_checkpoint :
    Str → CheckpointInput → Store → Reply (Option Checkpoint)
advance_ingestion_checkpoint now c s =
    elim (validate_configured_cluster c.workspace_id c.cluster_id c.namespace c.resource_kind s) [
      | err e ↦ (err e, s)
      | ok u ↦
          let checkpoints = put_checkpoint now c s.checkpoints in
          (ok (get (checkpoint_key c) checkpoints), record s { checkpoints = checkpoints })
    ]

unfoldable pub clear_ingestion_checkpoint : CheckpointInput → Store → Reply (Unit {0})
clear_ingestion_checkpoint c s =
    elim (validate_configured_cluster c.workspace_id c.cluster_id c.namespace c.resource_kind s) [
      | err e ↦ (err e, s)
      | ok u ↦ (ok tt, record s { checkpoints = remove (checkpoint_key c) s.checkpoints })
    ]

-- All versions are decimal numbers.
abbrev pub AreDecimal : Dict Checkpoint → Type 0
AreDecimal m =
    (k : Str) (p : Checkpoint) → get k m ≡ some p → is_decimal p.input.resource_version ≡ true

-- Each position of one map is in the other, and no earlier there.
abbrev pub NotBehind : Dict Checkpoint → Dict Checkpoint → Type 0
NotBehind m m' =
    (k : Str) (p : Checkpoint)
    → get k m ≡ some p
    → (p' : Checkpoint) × (get k m' ≡ some p')
      × (decimal p.input.resource_version ≤ decimal p'.input.resource_version)

set-NotBehind :
    (key : Str) (c : Checkpoint) (m : Dict Checkpoint)
    → is_decimal c.input.resource_version ≡ true
    → AreDecimal m
    → ((q : Checkpoint)
        → get key m ≡ some q
        → decimal q.input.resource_version ≤ decimal c.input.resource_version)
    → NotBehind m (set key c m) × AreDecimal (set key c m)
set-NotBehind key c m h a bound = (moves, decimals)
  where
    moves : NotBehind m (set key c m)
    moves k p g = elim (Bool-cases (key === k)) [
      | inl t ↦ (c, rw (get-set, t) refl, bound p (rw ((===_iff key k).0 t) g))
      | inr t ↦ (p, rw (get-set, t) g, omega arith)
    ]

    decimals : AreDecimal (set key c m)
    decimals k p g = elim (Bool-cases (key === k)) [
      | inl t ↦
          subst (λ q. is_decimal q.input.resource_version ≡ true)
            (some_inj c p (rw (get-set, t) at g)) h
      | inr t ↦ a k p (rw (get-set, t) at g)
    ]

-- A position that is written, with a decimal version over decimal versions, is no earlier than
-- before, no other position moves back, and all versions stay decimal.
pub put_checkpoint-NotBehind :
    (now : Str) (c : CheckpointInput) (m : Dict Checkpoint)
    → is_decimal c.resource_version ≡ true
    → AreDecimal m
    → NotBehind m (put_checkpoint now c m) × AreDecimal (put_checkpoint now c m)
unfolding put_checkpoint
put_checkpoint-NotBehind now c m h a = elim (Option-cases (get (checkpoint_key c) m)) [
  | inl g ↦ rw (g, put_checkpoint) (set-NotBehind (checkpoint_key c) _ m h a (λ q r. absurd cc))
  | inr (q, g) ↦ elim (Bool-cases (should_replace c.resource_version q.input.resource_version)) [
    | inr e ↦ rw (g, put_checkpoint, e) ((λ k p r. (p, r, omega arith)), a)
    | inl e ↦
        rw (g, put_checkpoint, e)
          (set-NotBehind (checkpoint_key c) _ m h a (λ p r.
            let same : q ≡ p = some_inj q p (sym g ∙ r) in
            rw (sym same) (
              ground (
                arith,
                should_replace-lt c.resource_version q.input.resource_version h (a _ q g) e,
              ))))
  ]
]

-- A sequence of writes, each with its time.
unfoldable pub put_all : List (Str × CheckpointInput) → Dict Checkpoint → Dict Checkpoint
put_all [] m = m
put_all ((now, c) ∷ rest) m = put_all rest (put_checkpoint now c m)

-- The position of a collection is there, and no earlier than the one that is given.
abbrev pub Reached : CheckpointInput → Dict Checkpoint → Type 0
Reached c m =
    (p : Checkpoint) × (get (checkpoint_key c) m ≡ some p)
    × (decimal c.resource_version ≤ decimal p.input.resource_version)

put_checkpoint-Reached :
    (now : Str) (c : CheckpointInput) (m : Dict Checkpoint)
    → is_decimal c.resource_version ≡ true
    → AreDecimal m
    → Reached c (put_checkpoint now c m)
unfolding put_checkpoint
put_checkpoint-Reached now c m h a =
    let written : Checkpoint = record { input = c; updated_at = now } in
    let there : get (checkpoint_key c) (set (checkpoint_key c) written m) ≡ some written =
      get-set (checkpoint_key c) (checkpoint_key c) written m
      ∙ rw (===_refl (checkpoint_key c)) refl in
    elim (Option-cases (get (checkpoint_key c) m)) [
      | inl g ↦ rw (g, put_checkpoint) (written, there, omega arith)
      | inr (q, g) ↦
          elim (Bool-cases (should_replace c.resource_version q.input.resource_version)) [
            | inl e ↦ rw (g, put_checkpoint, e) (written, there, omega arith)
            | inr e ↦
                rw (g, put_checkpoint, e)
                  (
                    q,
                    g,
                    should_replace-le c.resource_version q.input.resource_version h (a _ q g) e,
                  )
          ]
    ]

NotBehind-trans : (m n o : Dict Checkpoint) → NotBehind m n → NotBehind n o → NotBehind m o
NotBehind-trans m n o p q k c g =
    let (c', g', h) = p k c g in let (c2, g2, h2) = q k c' g' in (c2, g2, omega (arith, h, h2))

Reached-NotBehind :
    (c : CheckpointInput) (m n : Dict Checkpoint) → Reached c m → NotBehind m n → Reached c n
Reached-NotBehind c m n (p, g, h) b =
    let (p', g', h') = b (checkpoint_key c) p g in (p', g', omega (arith, h, h'))

-- After any sequence of writes of decimal versions over decimal versions, in whatever order they
-- come, no position is earlier than before or than any that was written for its collection.
pub put_all-Reached :
    (writes : List (Str × CheckpointInput)) (m : Dict Checkpoint)
    → All (λ w. is_decimal w.1.resource_version ≡ true) writes
    → AreDecimal m
    → NotBehind m (put_all writes m) × All (λ w. Reached w.1 (put_all writes m)) writes
unfolding put_all
put_all-Reached [] m d a = ((λ k p g. (p, g, omega arith)), tt)
put_all-Reached ((now, c) ∷ rest) m (h, d) a =
    let (b, a') = put_checkpoint-NotBehind now c m h a in
    let (b', r) = put_all-Reached rest (put_checkpoint now c m) d a' in
    (
      NotBehind-trans m (put_checkpoint now c m) (put_all rest (put_checkpoint now c m)) b b',
      (
        Reached-NotBehind c (put_checkpoint now c m) (put_all rest (put_checkpoint now c m))
            (put_checkpoint-Reached now c m h a) b',
        r,
      ),
    )
