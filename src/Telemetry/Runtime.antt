-- ===== src/Telemetry/Runtime.antt =====
-- The telemetry runtime: packages/telemetry/src/index.ts, `TelemetryRuntime` and its spans. Each
-- random id and time is an argument. `emitted` holds every signal dispatched so far and `exported`
-- the calls of the exporters, oldest first; the code keeps neither.
use tracegarden.Prelude.{
  Bool, true, false, Option, none, some, List, [], ◌∷◌, ◌++◌, ltb, if◌then◌else◌, length, Str, js,
  trim, truthy,
}
use tracegarden.Prelude.Dict.{Dict, set}
use tracegarden.Telemetry.Names.{safe_string, id, random_trace_id, random_span_id}
use tracegarden.Telemetry.Signals.{
  Host, Unknown, Level, CorrelationMetadata, SpanEvent, span_start, span_end, MetricValue,
  TelemetrySignal, log, trace, metric,
}
use tracegarden.Telemetry.Labels.{safe_telemetry_attributes}

-- How a call of an exporter ends.
pub data Outcome : Type 0 where
  returned : Outcome
  rejected : Outcome
  threw : Outcome

pub data Sink : Type 0 where
  log_exporter : Sink
  structured_log : Sink
  trace_exporter : Sink
  trace_sink : Sink
  metric_exporter : Sink
  metric_sink : Sink

-- The exporters of `TelemetryOptions`: `none` where the option is absent.
pub record TelemetryOptions (Num : Type 0) : Type 0 where
  pub service_name : Str
  pub exporter : Sink → Option (TelemetrySignal Num → Outcome)

-- A span is the state of its closures.
pub record TelemetrySpan : Type 0 where
  pub name : Str
  pub correlation : CorrelationMetadata
  pub ended : Bool

pub record Runtime (Num : Type 0) : Type 0 where
  pub service_name : Str
  pub options : TelemetryOptions Num
  pub counters : Dict (MetricValue Num)
  pub gauges : Dict (MetricValue Num)
  pub signal_history : List (TelemetrySignal Num)
  pub emitted : List (TelemetrySignal Num)
  pub exported : List (Sink × TelemetrySignal Num)

-- `xs.shift()`.
abbrev pub shift {ℓ} : {A : Type ℓ} → List A → List A
shift [] = []
shift (x ∷ xs) = xs

unfoldable pub correlation : Option Str → Str → Str → Str → CorrelationMetadata
unfolding id random_trace_id random_span_id
correlation request_id fallback uuid uuid' = record {
  request_id = id request_id fallback;
  trace_id = random_trace_id uuid;
  span_id = random_span_id uuid';
}

module _ {Num : Type 0} where
  -- The constructor; it throws on a blank name.
  unfoldable pub create_telemetry : TelemetryOptions Num → Option (Runtime Num)
  unfolding trim
  create_telemetry options =
      if truthy (trim options.service_name)
      then some (record {
        service_name = trim options.service_name;
        options = options;
        counters = [];
        gauges = [];
        signal_history = [];
        emitted = [];
        exported = [];
      })
      else none

  abbrev pub sinks_of : TelemetrySignal Num → List Sink
  sinks_of (log s) = log_exporter ∷ structured_log ∷ []
  sinks_of (trace s) = trace_exporter ∷ trace_sink ∷ []
  sinks_of (metric s) = metric_exporter ∷ metric_sink ∷ []

  -- The body of the loop over the exporters, its `try` and `.catch` included.
  unfoldable pub call_exporter :
      Option (TelemetrySignal Num → Outcome)
      → Sink
      → TelemetrySignal Num
      → List (Sink × TelemetrySignal Num)
      → List (Sink × TelemetrySignal Num)
  call_exporter none sink signal calls = calls
  call_exporter (some exporter) sink signal calls =
      let calls' = calls ++ (sink, signal) ∷ [] in
      elim (exporter signal) [ returned ↦ calls' | rejected ↦ calls' | threw ↦ calls' ]

  unfoldable pub call_exporters :
      TelemetryOptions Num
      → List Sink
      → TelemetrySignal Num
      → List (Sink × TelemetrySignal Num)
      → List (Sink × TelemetrySignal Num)
  unfolding call_exporter
  call_exporters options [] signal calls = calls
  call_exporters options (sink ∷ sinks) signal calls =
      call_exporters options sinks signal (call_exporter (options.exporter sink) sink signal calls)

  unfoldable pub dispatch : TelemetrySignal Num → Runtime Num → Runtime Num
  unfolding call_exporters
  dispatch signal r =
      let pushed = r.signal_history ++ signal ∷ [] in
      record r {
        signal_history = (if ltb 1000 (length pushed) then shift pushed else pushed);
        emitted = r.emitted ++ signal ∷ [];
        exported = call_exporters r.options (sinks_of signal) signal r.exported;
      }

-- `{ service: this.serviceName, ...attributes }`.
module _ {Num : Type 0} where
  unfoldable pub spread : Dict (Unknown Num) → Dict (Unknown Num) → Dict (Unknown Num)
  unfolding set
  spread [] base = base
  spread ((key, value) ∷ input) base = spread input (set key value base)

  unfoldable pub with_service : Str → Dict (Unknown Num) → Dict (Unknown Num)
  unfolding spread
  with_service service_name attributes =
      spread attributes ((js "service", Unknown.text service_name) ∷ [])

module _ {Num : Type 0} (host : Host Num) where
  unfoldable pub log_signal :
      Level → Str → CorrelationMetadata → Dict (Unknown Num) → Str → Runtime Num → Runtime Num
  unfolding dispatch safe_telemetry_attributes with_service safe_string
  log_signal level event correlation attributes now r =
      dispatch
        (log (record {
          level = level;
          event = safe_string event;
          timestamp = now;
          correlation = correlation;
          attributes =
              safe_telemetry_attributes host (some (with_service r.service_name attributes));
        }))
        r

  abbrev pub span_signal :
      SpanEvent
      → Str
      → CorrelationMetadata
      → Dict (Unknown Num)
      → Str
      → Runtime Num
      → TelemetrySignal Num
  span_signal event name correlation attributes now r = trace (record {
    event = event;
    name = safe_string name;
    timestamp = now;
    correlation = correlation;
    attributes = safe_telemetry_attributes host (some (with_service r.service_name attributes));
  })

  unfoldable pub start_span :
      Str
      → CorrelationMetadata
      → Dict (Unknown Num)
      → Str
      → Str
      → Runtime Num
      → TelemetrySpan × Runtime Num
  unfolding dispatch safe_telemetry_attributes with_service safe_string random_span_id
  start_span name correlation attributes uuid now r =
      let own : CorrelationMetadata = record correlation { span_id = random_span_id uuid } in
      (
        record { name = name; correlation = own; ended = false },
        dispatch (span_signal span_start name own attributes now r) r,
      )

  unfoldable pub end_span :
      TelemetrySpan → Dict (Unknown Num) → Str → Runtime Num → TelemetrySpan × Runtime Num
  unfolding dispatch safe_telemetry_attributes with_service safe_string
  end_span span attributes now r = if span.ended then (span, r) else (
    record span { ended = true },
    dispatch (span_signal span_end span.name span.correlation attributes now r) r,
  )

  -- `fail`, with the name of the error, if it is an `Error`.
  abbrev pub failure_attributes : Option Str → Dict (Unknown Num)
  failure_attributes error_name =
      (js "outcome", Unknown.text (js "error"))
      ∷ (js "error_type", Unknown.text (elim error_name [ none ↦ js "unknown" | some name ↦ name ]))
      ∷ []

  unfoldable pub fail_span :
      TelemetrySpan → Option Str → Str → Runtime Num → TelemetrySpan × Runtime Num
  unfolding end_span
  fail_span span error_name now r = end_span span (failure_attributes error_name) now r
