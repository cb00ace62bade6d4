-- ===== src/Telemetry/Steps.antt =====
-- A client of the telemetry runtime: packages/telemetry/src/index.ts. The calls that it makes, on
-- the runtime and on the spans that it was given, in the order in which they were started.
use tracegarden.Prelude.{ℕ, zero, suc, Option, List, [], ◌∷◌, ◌++◌, Str}
use tracegarden.Prelude.Dict.{Dict}
use tracegarden.Telemetry.Signals.{
  Host, Unknown, Level, CorrelationMetadata, MetricType, counter, gauge,
}
use tracegarden.Telemetry.Runtime.{
  Runtime, TelemetrySpan, log_signal, start_span, end_span, fail_span,
}
use tracegarden.Telemetry.Metrics.{define_counter, define_gauge, increment, set_gauge, set_counter}

pub data Call (Num : Type 0) : Type 0 where
  log : Level → Str → CorrelationMetadata → Dict (Unknown Num) → Str → Call Num
  start : Str → CorrelationMetadata → Dict (Unknown Num) → Str → Str → Call Num
  end : ℕ → Dict (Unknown Num) → Str → Call Num
  fail : ℕ → Option Str → Str → Call Num
  define : MetricType → Str → Dict Str → Call Num
  add : Str → Num → Dict Str → CorrelationMetadata → Str → Call Num
  put : MetricType → Str → Num → Dict Str → CorrelationMetadata → Str → Call Num

pub record World (Num : Type 0) : Type 0 where
  pub runtime : Runtime Num
  pub spans : List TelemetrySpan

-- A call of the `i`th span's closure. There is none beyond the spans that were started.
unfoldable pub on_span {ℓ} :
    {R : Type ℓ}
    → ℕ
    → (TelemetrySpan → R → TelemetrySpan × R)
    → List TelemetrySpan
    → R
    → List TelemetrySpan × R
on_span i f [] r = ([], r)
on_span zero f (span ∷ spans) r = let (span', r') = f span r in (span' ∷ spans, r')
on_span (suc i) f (span ∷ spans) r = let (spans', r') = on_span i f spans r in (span ∷ spans', r')

module _ {Num : Type 0} where
  abbrev pub on_runtime : (Runtime Num → Runtime Num) → World Num → World Num
  on_runtime f w = record w { runtime = f w.runtime }

  abbrev pub on_spans :
      ℕ → (TelemetrySpan → Runtime Num → TelemetrySpan × Runtime Num) → World Num → World Num
  on_spans i f w =
      let (spans, r) = on_span i f w.spans w.runtime in record { runtime = r; spans = spans }

module _ {Num : Type 0} (host : Host Num) where
  unfoldable pub step : Call Num → World Num → World Num
  unfolding on_span
  step (Call.log level event correlation attributes now) w =
      on_runtime (log_signal host level event correlation attributes now) w
  step (Call.start name correlation attributes uuid now) w =
      let (span, r) = start_span host name correlation attributes uuid now w.runtime in
      record { runtime = r; spans = w.spans ++ span ∷ [] }
  step (Call.end i attributes now) w = on_spans i (λ span r. end_span host span attributes now r) w
  step (Call.fail i name now) w = on_spans i (λ span r. fail_span host span name now r) w
  step (Call.define counter name labels) w = on_runtime (define_counter host name labels) w
  step (Call.define gauge name labels) w = on_runtime (define_gauge host name labels) w
  step (Call.add name value labels correlation now) w =
      on_runtime (increment host name value labels correlation now) w
  step (Call.put counter name value labels correlation now) w =
      on_runtime (set_counter host name value labels correlation now) w
  step (Call.put gauge name value labels correlation now) w =
      on_runtime (set_gauge host name value labels correlation now) w

  unfoldable pub run : List (Call Num) → World Num → World Num
  unfolding step
  run [] w = w
  run (call ∷ calls) w = run calls (step call w)
