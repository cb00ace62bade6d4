-- ===== src/Timeline/History.antt =====
-- Sequences of batches and cleanups, in which no observation loses its entry.
use tracegarden.Prelude.{ℕ, ◌≡◌, refl, Bool, true, Option, List, [], ◌∷◌, Str}
use tracegarden.Prelude.Dates.{Dates}
use tracegarden.Prelude.Dict.{get}
use tracegarden.Prelude.Result.{is_ok}
use tracegarden.Cluster.{ClusterScope, Observation}
use tracegarden.Timeline.Records.{Store, CheckpointInput, new_store}
use tracegarden.Timeline.Ingest.{record_observations_internal}
use tracegarden.Timeline.Retention.{cleanup_retention}
use tracegarden.Timeline.Linked.{IsLinked}
use tracegarden.Timeline.Batches.{AreRecordable, record_observations_internal-Knows}
use tracegarden.Timeline.Deletions.{cleanup_retention-IsLinked}

pub data Call : Type 0 where
  batch : Str → List (Str × Observation) → Option CheckpointInput → Call
  cleanup : ℕ → Str → Option ℕ → Call

pub new_store-IsLinked : (scope : Option (Option ClusterScope)) → IsLinked (new_store scope)
unfolding new_store get
new_store-IsLinked scope = record {
  keyed = tt;
  keys = tt;
  sound = λ i e g. absurd cc;
  shown = λ k o g. absurd cc;
}

module _ (d : Dates) where
  unfoldable pub step : Call → Store → Store
  step (batch now observations checkpoint) s =
      (record_observations_internal now observations checkpoint s).1
  step (cleanup now workspace at) s = (cleanup_retention d now workspace at s).1

  -- The error of a call, if it has one.
  abbrev pub succeeds : Call → Store → Bool
  succeeds (batch now observations checkpoint) s =
      is_ok (record_observations_internal now observations checkpoint s).0
  succeeds (cleanup now workspace at) s = true

  abbrev pub AreAllowed : List Call → Store → Type 0
  AreAllowed [] s = Unit
  AreAllowed (batch now observations checkpoint ∷ calls) s =
      AreRecordable observations s × AreAllowed calls (step (batch now observations checkpoint) s)
  AreAllowed (cleanup now workspace at ∷ calls) s =
      AreAllowed calls (step (cleanup now workspace at) s)

  -- No batch fails.
  abbrev pub AllSucceed : List Call → Store → Type 0
  AllSucceed [] s = Unit
  AllSucceed (c ∷ calls) s = (succeeds c s ≡ true) × AllSucceed calls (step c s)

  run_from-AllSucceed :
      (calls : List Call) (s : Store) → AreAllowed calls s → IsLinked s → AllSucceed calls s
  unfolding step
  run_from-AllSucceed [] s a l = tt
  run_from-AllSucceed (batch now observations checkpoint ∷ calls) s (r, a) l =
      let ((results, e, n), l', k) =
        record_observations_internal-Knows now observations checkpoint s r l in
      (rw e refl, run_from-AllSucceed calls _ a l')
  run_from-AllSucceed (cleanup now workspace at ∷ calls) s a l =
      (refl, run_from-AllSucceed calls _ a (cleanup_retention-IsLinked d now workspace at s l))

  -- In a store that starts empty, every batch of any sequence of batches and cleanups succeeds, so the
  -- error for a missing entry never occurs, if each new entry gets an id that no entry has and no
  -- observation has a NUL in the names of its workspace and cluster.
  pub history-AllSucceed :
      (scope : Option (Option ClusterScope)) (calls : List Call)
      → AreAllowed calls (new_store scope)
      → AllSucceed calls (new_store scope)
  history-AllSucceed scope calls a =
      run_from-AllSucceed calls (new_store scope) a (new_store-IsLinked scope)
