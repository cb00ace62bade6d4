-- ===== src/Telemetry/Metrics.antt =====
-- The metrics of the telemetry runtime: packages/telemetry/src/index.ts, `updateMetric`, the
-- operations that call it, and `metricsText`.
use tracegarden.Prelude.{
  ℕ, ◌+◌, not, ◌&&◌, ◌||◌, Option, none, some, List, [], ◌∷◌, ◌++◌, map, ltb, leb, if◌then◌else◌,
  is_some, length, any, Str, js, ◌===◌,
}
use tracegarden.Prelude.Dict.{Dict, get, set, values}
use tracegarden.Telemetry.Names.{prometheus_label_value, join_with, is_metric_name}
use tracegarden.Telemetry.Signals.{
  Host, CorrelationMetadata, MetricType, counter, gauge, MetricValue, TelemetrySignal, metric,
}
use tracegarden.Telemetry.Labels.{safe_labels, labels_key}
use tracegarden.Telemetry.Runtime.{Runtime, dispatch}

-- `add` of `updateMetric`: `true`, `false` or `undefined`.
pub data Add : Type 0 where
  adds : Add
  sets : Add
  defines : Add

abbrev pub max_metric_series : ℕ
max_metric_series = 1000

module _ {Num : Type 0} (host : Host Num) where
  abbrev pub series_key : Str → Dict Str → Str
  series_key name labels = name ++ b'|' ∷ labels_key host (safe_labels host labels)

  abbrev pub target : MetricType → Runtime Num → Dict (MetricValue Num)
  target counter r = r.counters
  target gauge r = r.gauges

  abbrev pub with_target : MetricType → Dict (MetricValue Num) → Runtime Num → Runtime Num
  with_target counter series r = record r { counters = series }
  with_target gauge series r = record r { gauges = series }

  abbrev pub next_value : Add → Option (MetricValue Num) → Num → Num
  next_value adds none value = host.plus host.zero_value value
  next_value adds (some previous) value = host.plus previous.value value
  next_value sets previous value = value
  next_value defines previous value = value

  unfoldable pub update_metric :
      MetricType → Str → Num → Dict Str → Add → Runtime Num → Runtime Num × Option (MetricValue Num)
  unfolding get set is_metric_name safe_labels labels_key
  update_metric kind name value labels add r =
      let key = series_key name labels in
      let previous = get key (target kind r) in
      let sample : MetricValue Num = record {
        name = name;
        kind = kind;
        value = next_value add previous value;
        labels = safe_labels host labels;
      } in
      let updated = with_target kind (set key sample (target kind r)) r in
      if not (is_metric_name name)
      then (r, none)
      else if not (is_some previous) && leb max_metric_series (length r.counters + length r.gauges)
      then (r, none)
      else (updated, elim add [ adds ↦ some sample | sets ↦ some sample | defines ↦ none ])

  abbrev pub metric_signal : MetricValue Num → CorrelationMetadata → Str → TelemetrySignal Num
  metric_signal sample correlation now = metric (record {
    name = sample.name;
    kind = sample.kind;
    value = sample.value;
    timestamp = now;
    correlation = correlation;
    labels = sample.labels;
  })

  -- `if (sample) this.dispatch(this.metricSignal(sample, correlation))`.
  abbrev pub dispatch_sample :
      CorrelationMetadata → Str → Runtime Num × Option (MetricValue Num) → Runtime Num
  dispatch_sample correlation now (r, none) = r
  dispatch_sample correlation now (r, some sample) =
      dispatch (metric_signal sample correlation now) r

  unfoldable pub define_counter : Str → Dict Str → Runtime Num → Runtime Num
  unfolding update_metric
  define_counter name labels r = (update_metric counter name host.zero_value labels defines r).0

  unfoldable pub define_gauge : Str → Dict Str → Runtime Num → Runtime Num
  unfolding update_metric
  define_gauge name labels r = (update_metric gauge name host.zero_value labels defines r).0

  unfoldable pub increment :
      Str → Num → Dict Str → CorrelationMetadata → Str → Runtime Num → Runtime Num
  unfolding update_metric dispatch
  increment name value labels correlation now r =
      if not (host.is_finite value) || host.is_negative value
      then r
      else dispatch_sample correlation now (update_metric counter name value labels adds r)

  unfoldable pub set_gauge :
      Str → Num → Dict Str → CorrelationMetadata → Str → Runtime Num → Runtime Num
  unfolding update_metric dispatch
  set_gauge name value labels correlation now r =
      if not (host.is_finite value)
      then r
      else dispatch_sample correlation now (update_metric gauge name value labels sets r)

  unfoldable pub set_counter :
      Str → Num → Dict Str → CorrelationMetadata → Str → Runtime Num → Runtime Num
  unfolding update_metric dispatch
  set_counter name value labels correlation now r =
      if not (host.is_finite value) || host.is_negative value
      then r
      else dispatch_sample correlation now (update_metric counter name value labels sets r)

  unfoldable pub sample_line : MetricValue Num → Str
  unfolding prometheus_label_value
  sample_line sample =
      let labels =
        map (λ (p : Str × Str). p.0 ++ b'=' ∷ b'"' ∷ (prometheus_label_value p.1 ++ b'"' ∷ []))
          sample.labels in
      sample.name
      ++ (if ltb 0 (length labels) then b'{' ∷ (join_with b',' labels ++ b'}' ∷ []) else [])
      ++ b' ' ∷ host.show sample.value

  abbrev type_line : MetricValue Num → Str
  type_line sample =
      js "# TYPE "
      ++ sample.name
      ++ b' ' ∷ elim sample.kind [ counter ↦ js "counter" | gauge ↦ js "gauge" ]

  -- The loop of `metricsText`, with `types` as the names seen so far.
  unfoldable pub metric_lines : List (MetricValue Num) → List Str → List Str
  unfolding sample_line ◌===◌
  metric_lines [] types = []
  metric_lines (sample ∷ samples) types =
      let known = any (λ t. t === sample.name) types in
      let rest = metric_lines samples (if known then types else types ++ sample.name ∷ []) in
      if known then sample_line sample ∷ rest else type_line sample ∷ sample_line sample ∷ rest

  unfoldable pub metrics_text : Runtime Num → Str
  unfolding metric_lines
  metrics_text r = join_with 10 (metric_lines (values r.counters ++ values r.gauges) []) ++ 10 ∷ []
