-- ===== src/Timeline/Replaced.antt =====
-- A position of the collection that is put twice: `putCheckpoint` of packages/db/src/index.ts.
use tracegarden.Prelude.{
  ◌≡◌, refl, sym, ap, ◌∙◌, inl, inr, false, Option, none, some, Bool-cases, Option-cases, Str,
  ===_refl,
}
use tracegarden.Prelude.Dict.{set, Dict, get, get-set}
use tracegarden.Cluster.{should_replace}
use tracegarden.Timeline.Records.{Checkpoint, CheckpointInput}
use tracegarden.Timeline.Ingest.{checkpoint_key, put_checkpoint, put_optional}

-- A position that may not replace the one that is there is not put.
put_checkpoint-kept :
    (later : Str) (c : CheckpointInput) (checkpoints : Dict Checkpoint) (previous : Checkpoint)
    → get (checkpoint_key c) checkpoints ≡ some previous
    → should_replace c.resource_version previous.input.resource_version ≡ false
    → put_checkpoint later c checkpoints ≡ checkpoints
unfolding put_checkpoint
put_checkpoint-kept later c checkpoints previous e t = rw (e, put_checkpoint, t) refl

should_replace-same : (v : Str) → should_replace v v ≡ false
unfolding should_replace
should_replace-same v = rw (===_refl v) refl

put_checkpoint-set :
    (now later : Str) (c : CheckpointInput) (checkpoints : Dict Checkpoint)
    → let put = set (checkpoint_key c) (record { input = c; updated_at = now }) checkpoints in
      put_checkpoint later c put ≡ put
put_checkpoint-set now later c checkpoints =
    put_checkpoint-kept later c _ (record { input = c; updated_at = now })
      (get-set (checkpoint_key c) (checkpoint_key c) _ checkpoints
        ∙ rw (===_refl (checkpoint_key c)) refl)
      (should_replace-same c.resource_version)

-- A position that was put is there, or one that it may not replace: it is not put again.
put_checkpoint-same :
    (now later : Str) (c : CheckpointInput) (checkpoints : Dict Checkpoint)
    → put_checkpoint later c (put_checkpoint now c checkpoints) ≡ put_checkpoint now c checkpoints
unfolding put_checkpoint
put_checkpoint-same now later c checkpoints =
    elim (Option-cases (get (checkpoint_key c) checkpoints)) [
      | inl e ↦
          let q : put_checkpoint now c checkpoints
              ≡ set (checkpoint_key c) (record { input = c; updated_at = now }) checkpoints =
            rw (e, put_checkpoint) refl in
          ap (put_checkpoint later c) q ∙ put_checkpoint-set now later c checkpoints ∙ sym q
      | inr (previous, e) ↦
          elim (Bool-cases (should_replace c.resource_version previous.input.resource_version)) [
            | inl t ↦
                let q : put_checkpoint now c checkpoints
                    ≡ set (checkpoint_key c) (record { input = c; updated_at = now }) checkpoints =
                  rw (e, put_checkpoint, t) refl in
                ap (put_checkpoint later c) q ∙ put_checkpoint-set now later c checkpoints ∙ sym q
            | inr t ↦
                ap (put_checkpoint later c) (put_checkpoint-kept now c checkpoints previous e t)
                ∙ put_checkpoint-kept later c checkpoints previous e t
                ∙ sym (put_checkpoint-kept now c checkpoints previous e t)
          ]
    ]

pub put_optional-same :
    (now later : Str) (c : Option CheckpointInput) (checkpoints : Dict Checkpoint)
    → put_optional later c (put_optional now c checkpoints) ≡ put_optional now c checkpoints
put_optional-same now later none checkpoints = refl
put_optional-same now later (some c) checkpoints = put_checkpoint-same now later c checkpoints
