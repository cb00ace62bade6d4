-- ===== src/Telemetry/Totals.antt =====
-- What a series amounts to: packages/telemetry/src/index.ts, `updateMetric` and its callers.
use tracegarden.Prelude.{
  ◌≡◌, refl, inl, inr, Bool, true, false, not, ◌&&◌, ◌||◌, Option, none, some, List, [], ◌∷◌,
  if◌then◌else◌, Bool-cases, some_inj, Str, ◌===◌, ===_iff, ===_refl,
}
use tracegarden.Prelude.Dict.{Dict, get, set, get-set}
use tracegarden.Telemetry.Names.{is_metric_name}
use tracegarden.Telemetry.Signals.{
  Host, CorrelationMetadata, MetricType, counter, gauge, TelemetrySignal, MetricValue,
}
use tracegarden.Telemetry.Runtime.{Runtime, dispatch, log_signal, start_span}
use tracegarden.Telemetry.Metrics.{
  Add, adds, sets, defines, update_metric, dispatch_sample, define_counter, define_gauge, increment,
  set_counter, set_gauge, series_key, next_value, target,
}
use tracegarden.Telemetry.Steps.{Call, World, step, run}
use tracegarden.Telemetry.Kept.{kept_span, kept_end_span, kept_fail_span}
use mathlib.Core.Option

abbrev same_kind : MetricType → MetricType → Bool
same_kind counter counter = true
same_kind counter gauge = false
same_kind gauge counter = false
same_kind gauge gauge = true

module _ {Num : Type 0} (host : Host Num) where
  abbrev added : Add → Num → Num → Num
  added adds v x = host.plus v x
  added sets v x = x
  added defines v x = x

  -- What an update does to the value `v` of the series of a type under a key.
  abbrev updated : MetricType → Str → MetricType → Str → Dict Str → Add → Num → Num → Num
  updated kind key k name labels add x v =
      if same_kind k kind && is_metric_name name && series_key host name labels === key
      then added add v x
      else v

  -- What one call does to it.
  abbrev replay_call : MetricType → Str → Call Num → Num → Num
  replay_call kind key (Call.define k name labels) v =
      updated kind key k name labels defines host.zero_value v
  replay_call kind key (Call.add name x labels c now) v =
      if not (host.is_finite x) || host.is_negative x
      then v
      else updated kind key counter name labels adds x v
  replay_call kind key (Call.put counter name x labels c now) v =
      if not (host.is_finite x) || host.is_negative x
      then v
      else updated kind key counter name labels sets x v
  replay_call kind key (Call.put gauge name x labels c now) v =
      if not (host.is_finite x) then v else updated kind key gauge name labels sets x v
  replay_call kind key (Call.log l e c a now) v = v
  replay_call kind key (Call.start n c a u now) v = v
  replay_call kind key (Call.end i a now) v = v
  replay_call kind key (Call.fail i e now) v = v

  abbrev pub replay : MetricType → Str → List (Call Num) → Num → Num
  replay kind key [] v = v
  replay kind key (call ∷ calls) v = replay kind key calls (replay_call kind key call v)

  -- The series of a type under a key has a value.
  abbrev pub HasValue : MetricType → Str → Num → Runtime Num → Type 0
  HasValue kind key v r =
      Option.map (λ (s : MetricValue Num). s.value) (get key (target host kind r)) ≡ some v

  dispatch-HasValue :
      (kind : MetricType) (key : Str) (v : Num) (signal : TelemetrySignal Num) (r : Runtime Num)
      → HasValue kind key v r
      → HasValue kind key v (dispatch signal r)
  unfolding dispatch
  dispatch-HasValue counter key v signal r h = h
  dispatch-HasValue gauge key v signal r h = h

  set-HasValue :
      (key key' : Str) (v : Num) (sample : MetricValue Num) (m : Dict (MetricValue Num))
      → (key' === key) ≡ false
      → Option.map (λ (s : MetricValue Num). s.value) (get key m) ≡ some v
      → Option.map (λ (s : MetricValue Num). s.value) (get key (set key' sample m)) ≡ some v
  set-HasValue key key' v sample m apart h = rw get-set (rw apart h)

  next_value-added :
      (add : Add) (p : MetricValue Num) (x v : Num)
      → p.value ≡ v
      → next_value host add (some p) x ≡ added add v x
  next_value-added adds p x v e = rw e refl
  next_value-added sets p x v e = refl
  next_value-added defines p x v e = refl

  map-some :
      (o : Option (MetricValue Num)) (v : Num)
      → Option.map (λ (s : MetricValue Num). s.value) o ≡ some v
      → (p : MetricValue Num) × (o ≡ some p) × (p.value ≡ v)
  map-some none v e = cc
  map-some (some p) v e = (p, refl, some_inj p.value v e)

  -- An update leaves the runtime or writes the series.
  either_way :
      (P : Runtime Num → Type 0) (bad full : Bool) (r r' : Runtime Num)
      (sample : Option (MetricValue Num))
      → P r
      → P r'
      → let result : Runtime Num × Option (MetricValue Num) =
          if bad then (r, none) else if full then (r, none) else (r', sample) in
        P result.0
  either_way P true full r r' sample h h' = h
  either_way P false true r r' sample h h' = h
  either_way P false false r r' sample h h' = h'

  update_metric-HasValue :
      (kind k : MetricType) (key name : Str) (x v : Num) (labels : Dict Str) (add : Add)
      (r : Runtime Num)
      → HasValue kind key v r
      → HasValue kind key
          (updated kind key k name labels add x v)
          (update_metric host k name x labels add r).0
  unfolding update_metric
  update_metric-HasValue counter gauge key name x v labels add r h =
      elim (Bool-cases (is_metric_name name)) [
        | inr bad ↦ rw bad h
        | inl good ↦ rw good (either_way (HasValue counter key v) false _ r _ _ h h)
      ]
  update_metric-HasValue gauge counter key name x v labels add r h =
      elim (Bool-cases (is_metric_name name)) [
        | inr bad ↦ rw bad h
        | inl good ↦ rw good (either_way (HasValue gauge key v) false _ r _ _ h h)
      ]
  update_metric-HasValue counter counter key name x v labels add r h =
      elim (Bool-cases (is_metric_name name)) [
        | inr bad ↦ rw bad h
        | inl good ↦ elim (Bool-cases (series_key host name labels === key)) [
          | inl same ↦
              let (p, found, is) = map-some (get key r.counters) v h in
              let e = (===_iff (series_key host name labels) key).0 same in
              rw (good, same, e, found) (rw (get-set, ===_refl, next_value-added add p x v is) refl)
          | inr apart ↦
              rw (good, apart)
                (either_way (HasValue counter key v) false _ r _ _ h
                  (set-HasValue key _ v _ r.counters apart h))
        ]
      ]
  update_metric-HasValue gauge gauge key name x v labels add r h =
      elim (Bool-cases (is_metric_name name)) [
        | inr bad ↦ rw bad h
        | inl good ↦ elim (Bool-cases (series_key host name labels === key)) [
          | inl same ↦
              let (p, found, is) = map-some (get key r.gauges) v h in
              let e = (===_iff (series_key host name labels) key).0 same in
              rw (good, same, e, found) (rw (get-set, ===_refl, next_value-added add p x v is) refl)
          | inr apart ↦
              rw (good, apart)
                (either_way (HasValue gauge key v) false _ r _ _ h
                  (set-HasValue key _ v _ r.gauges apart h))
        ]
      ]

  dispatch_sample-HasValue :
      (kind : MetricType) (key : Str) (v : Num) (c : CorrelationMetadata) (now : Str)
      (p : Runtime Num × Option (MetricValue Num))
      → HasValue kind key v p.0
      → HasValue kind key v (dispatch_sample host c now p)
  dispatch_sample-HasValue kind key v c now (r, none) h = h
  dispatch_sample-HasValue kind key v c now (r, some sample) h = dispatch-HasValue kind key v _ r h

  guarded-HasValue :
      (kind : MetricType) (key : Str) (v v' : Num) (test : Bool) (r r' : Runtime Num)
      → HasValue kind key v r
      → HasValue kind key v' r'
      → HasValue kind key (if test then v else v') (if test then r else r')
  guarded-HasValue kind key v v' true r r' h h' = h
  guarded-HasValue kind key v v' false r r' h h' = h'

  step-HasValue :
      (kind : MetricType) (key : Str) (call : Call Num) (w : World Num) (v : Num)
      → HasValue kind key v w.runtime
      → HasValue kind key (replay_call kind key call v) (step host call w).runtime
  unfolding step log_signal start_span define_counter define_gauge increment set_counter set_gauge
  step-HasValue kind key (Call.log l e c a n) w v h = dispatch-HasValue kind key v _ w.runtime h
  step-HasValue kind key (Call.start n c a u t) w v h = dispatch-HasValue kind key v _ w.runtime h
  step-HasValue kind key (Call.end i a n) w v h =
      kept_span (HasValue kind key v) i _
        (kept_end_span host (HasValue kind key v) (dispatch-HasValue kind key v) a n) w.spans
        w.runtime h
  step-HasValue kind key (Call.fail i e n) w v h =
      kept_span (HasValue kind key v) i _
        (kept_fail_span host (HasValue kind key v) (dispatch-HasValue kind key v) e n) w.spans
        w.runtime h
  step-HasValue kind key (Call.define counter n l) w v h =
      update_metric-HasValue kind counter key n host.zero_value v l defines w.runtime h
  step-HasValue kind key (Call.define gauge n l) w v h =
      update_metric-HasValue kind gauge key n host.zero_value v l defines w.runtime h
  step-HasValue kind key (Call.add n x l c t) w v h =
      guarded-HasValue kind key v _ _ w.runtime _ h (
        dispatch_sample-HasValue kind key _ c t _
          (update_metric-HasValue kind counter key n x v l adds w.runtime h))
  step-HasValue kind key (Call.put counter n x l c t) w v h =
      guarded-HasValue kind key v _ _ w.runtime _ h (
        dispatch_sample-HasValue kind key _ c t _
          (update_metric-HasValue kind counter key n x v l sets w.runtime h))
  step-HasValue kind key (Call.put gauge n x l c t) w v h =
      guarded-HasValue kind key v _ _ w.runtime _ h (
        dispatch_sample-HasValue kind key _ c t _
          (update_metric-HasValue kind gauge key n x v l sets w.runtime h))

  -- Whatever calls are made, a series that has the value `v` ends with what the calls on it make of
  -- `v`, in their order: an increment by a finite amount that is not negative adds it, a finite value
  -- that is set replaces it (a negative one only in a gauge), a definition sets it to 0, and every
  -- other call, a call on another series or with a malformed name too, leaves it.
  pub run-HasValue :
      (kind : MetricType) (key : Str) (calls : List (Call Num)) (w : World Num) (v : Num)
      → HasValue kind key v w.runtime
      → HasValue kind key (replay kind key calls v) (run host calls w).runtime
  unfolding run
  run-HasValue kind key [] w v h = h
  run-HasValue kind key (call ∷ calls) w v h =
      run-HasValue kind key calls (step host call w) (replay_call kind key call v)
        (step-HasValue kind key call w v h)
