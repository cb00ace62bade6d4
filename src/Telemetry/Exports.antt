-- ===== src/Telemetry/Exports.antt =====
-- What the exporters are called with: packages/telemetry/src/index.ts, `dispatch`.
use tracegarden.Prelude.{
  ℕ, ◌≡◌, refl, ◌∙◌, inl, inr, Bool, true, false, ◌&&◌, Option, none, some, List, [], ◌∷◌, ◌++◌,
  arith, ◌==◌, if◌then◌else◌, Bool-cases, is_some, filter, append-nil,
}
use tracegarden.Telemetry.Signals.{Host, TelemetrySignal, log, trace, metric}
use tracegarden.Telemetry.Runtime.{
  Runtime, Outcome, returned, rejected, threw, TelemetryOptions, Sink, log_exporter, structured_log,
  trace_exporter, trace_sink, metric_exporter, metric_sink, sinks_of, dispatch, call_exporter,
  call_exporters,
}
use tracegarden.Telemetry.Steps.{Call, World, run}
use tracegarden.Telemetry.Kept.{kept_run}
use tracegarden.Telemetry.Recent.{update_metric-quiet}

abbrev sink_index : Sink → ℕ
sink_index log_exporter = 0
sink_index structured_log = 1
sink_index trace_exporter = 2
sink_index trace_sink = 3
sink_index metric_exporter = 4
sink_index metric_sink = 5

module _ {Num : Type 0} where
  -- The signals that a sink's exporter was called with.
  abbrev pub calls_of : Sink → List (Sink × TelemetrySignal Num) → List (TelemetrySignal Num)
  calls_of sink [] = []
  calls_of sink ((s, signal) ∷ calls) =
      let rest = calls_of sink calls in
      if sink_index s == sink_index sink then signal ∷ rest else rest

  -- The kind of signal that an exporter takes.
  abbrev pub is_for : Sink → TelemetrySignal Num → Bool
  is_for log_exporter (log s) = true
  is_for structured_log (log s) = true
  is_for trace_exporter (trace s) = true
  is_for trace_sink (trace s) = true
  is_for metric_exporter (metric s) = true
  is_for metric_sink (metric s) = true
  is_for _ _ = false

  -- The signals for a sink.
  abbrev pub signals_for : Sink → List (TelemetrySignal Num) → List (TelemetrySignal Num)
  signals_for sink signals = filter (is_for sink) signals

  -- Each exporter that is configured was called with the signals of its kind.
  abbrev pub ExportsAll : Sink → Runtime Num → Type 0
  ExportsAll sink r =
      calls_of sink r.exported
      ≡ (if is_some (r.options.exporter sink) then signals_for sink r.emitted else [])

  calls_of-append :
      (sink : Sink) (xs ys : List (Sink × TelemetrySignal Num))
      → calls_of sink (xs ++ ys) ≡ calls_of sink xs ++ calls_of sink ys
  calls_of-append sink [] ys = refl
  calls_of-append sink ((s, signal) ∷ xs) ys = ground (arith, calls_of-append sink xs ys)

  filter-append_one :
      (p : TelemetrySignal Num → Bool) (xs : List (TelemetrySignal Num)) (x : TelemetrySignal Num)
      → filter p (xs ++ x ∷ []) ≡ (if p x then filter p xs ++ x ∷ [] else filter p xs)
  filter-append_one p [] x = ground arith
  filter-append_one p (y ∷ xs) x = ground (arith, filter-append_one p xs x)

  calls_of-call_exporter :
      (sink s : Sink) (e : Option (TelemetrySignal Num → Outcome)) (signal : TelemetrySignal Num)
      (calls : List (Sink × TelemetrySignal Num))
      → calls_of sink (call_exporter e s signal calls) ≡ (
          if sink_index s == sink_index sink && is_some e
          then calls_of sink calls ++ signal ∷ []
          else calls_of sink calls)
  unfolding call_exporter
  calls_of-call_exporter sink s none signal calls = ground arith
  calls_of-call_exporter sink s (some e) signal calls =
      called (e signal)
      ∙ calls_of-append sink calls ((s, signal) ∷ [])
      ∙ elim (Bool-cases (sink_index s == sink_index sink)) [
        | inl t ↦ rw t refl
        | inr t ↦ rw t (append-nil (calls_of sink calls))
      ]
    where
      called :
          (outcome : Outcome)
          → calls_of sink (elim outcome [
            | returned ↦ calls ++ (s, signal) ∷ []
            | rejected ↦ calls ++ (s, signal) ∷ []
            | threw ↦ calls ++ (s, signal) ∷ []
          ])
            ≡ calls_of sink (calls ++ (s, signal) ∷ [])
      called returned = refl
      called rejected = refl
      called threw = refl

  calls_of-call_exporters :
      (sink : Sink) (signal : TelemetrySignal Num) (options : TelemetryOptions Num)
      (calls : List (Sink × TelemetrySignal Num))
      → calls_of sink (call_exporters options (sinks_of signal) signal calls) ≡ (
          if is_for sink signal && is_some (options.exporter sink)
          then calls_of sink calls ++ signal ∷ []
          else calls_of sink calls)
  unfolding call_exporters
  calls_of-call_exporters log_exporter (log s) o c =
      rw (calls_of-call_exporter, calls_of-call_exporter) refl
  calls_of-call_exporters log_exporter (trace s) o c =
      rw (calls_of-call_exporter, calls_of-call_exporter) refl
  calls_of-call_exporters log_exporter (metric s) o c =
      rw (calls_of-call_exporter, calls_of-call_exporter) refl
  calls_of-call_exporters structured_log (log s) o c =
      rw (calls_of-call_exporter, calls_of-call_exporter) refl
  calls_of-call_exporters structured_log (trace s) o c =
      rw (calls_of-call_exporter, calls_of-call_exporter) refl
  calls_of-call_exporters structured_log (metric s) o c =
      rw (calls_of-call_exporter, calls_of-call_exporter) refl
  calls_of-call_exporters trace_exporter (log s) o c =
      rw (calls_of-call_exporter, calls_of-call_exporter) refl
  calls_of-call_exporters trace_exporter (trace s) o c =
      rw (calls_of-call_exporter, calls_of-call_exporter) refl
  calls_of-call_exporters trace_exporter (metric s) o c =
      rw (calls_of-call_exporter, calls_of-call_exporter) refl
  calls_of-call_exporters trace_sink (log s) o c =
      rw (calls_of-call_exporter, calls_of-call_exporter) refl
  calls_of-call_exporters trace_sink (trace s) o c =
      rw (calls_of-call_exporter, calls_of-call_exporter) refl
  calls_of-call_exporters trace_sink (metric s) o c =
      rw (calls_of-call_exporter, calls_of-call_exporter) refl
  calls_of-call_exporters metric_exporter (log s) o c =
      rw (calls_of-call_exporter, calls_of-call_exporter) refl
  calls_of-call_exporters metric_exporter (trace s) o c =
      rw (calls_of-call_exporter, calls_of-call_exporter) refl
  calls_of-call_exporters metric_exporter (metric s) o c =
      rw (calls_of-call_exporter, calls_of-call_exporter) refl
  calls_of-call_exporters metric_sink (log s) o c =
      rw (calls_of-call_exporter, calls_of-call_exporter) refl
  calls_of-call_exporters metric_sink (trace s) o c =
      rw (calls_of-call_exporter, calls_of-call_exporter) refl
  calls_of-call_exporters metric_sink (metric s) o c =
      rw (calls_of-call_exporter, calls_of-call_exporter) refl

  dispatch-ExportsAll :
      (sink : Sink) (signal : TelemetrySignal Num) (r : Runtime Num)
      → ExportsAll sink r
      → ExportsAll sink (dispatch signal r)
  unfolding dispatch
  dispatch-ExportsAll sink signal r h =
      rw (calls_of-call_exporters, filter-append_one) (ground (arith, h))

module _ {Num : Type 0} (host : Host Num) where
  -- Whatever calls are made, an exporter that is configured is called once with each signal of its
  -- kind that was dispatched, in their order, whether it returns, throws or its promise is rejected:
  -- those of logs with logs, those of traces with traces and those of metrics with metrics; and what
  -- is not configured is not called.
  pub run-ExportsAll :
      (sink : Sink) (calls : List (Call Num)) (w : World Num)
      → ExportsAll sink w.runtime
      → ExportsAll sink (run host calls w).runtime
  run-ExportsAll sink =
      kept_run host (ExportsAll sink) (dispatch-ExportsAll sink) (λ kind name value labels add r h.
        let q = update_metric-quiet host kind name value labels add r in rw (q.0, q.2, q.3) h)
