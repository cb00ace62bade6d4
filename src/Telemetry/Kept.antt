-- ===== src/Telemetry/Kept.antt =====
-- What every sequence of calls keeps, from what the dispatch of a signal and the update of a metric
-- keep: packages/telemetry/src/index.ts.
use tracegarden.Prelude.{
  ℕ, zero, suc, inl, inr, Bool, true, false, Option, none, some, List, [], ◌∷◌, if◌then◌else◌,
  Bool-cases, Str,
}
use tracegarden.Prelude.Dict.{Dict}
use tracegarden.Telemetry.Signals.{
  Unknown, Host, CorrelationMetadata, MetricType, counter, gauge, MetricValue, TelemetrySignal,
}
use tracegarden.Telemetry.Runtime.{
  Runtime, TelemetrySpan, dispatch, failure_attributes, log_signal, start_span, end_span, fail_span,
}
use tracegarden.Telemetry.Metrics.{
  metric_signal, Add, adds, sets, defines, update_metric, dispatch_sample, define_counter,
  define_gauge, increment, set_gauge, set_counter,
}
use tracegarden.Telemetry.Steps.{Call, World, on_span, step, run}

module _ {Num : Type 0} (host : Host Num) (P : Runtime Num → Type 0)
    (keep_sample : (sample : MetricValue Num) (correlation : CorrelationMetadata) (now : Str)
        (r : Runtime Num)
      → P r
      → P (dispatch (metric_signal host sample correlation now) r))
    (keep_update : (kind : MetricType) (name : Str) (value : Num) (labels : Dict Str) (add : Add)
        (r : Runtime Num)
      → P r
      → P (update_metric host kind name value labels add r).0) where
  kept_sample :
      (correlation : CorrelationMetadata) (now : Str) (p : Runtime Num × Option (MetricValue Num))
      → P p.0
      → P (dispatch_sample host correlation now p)
  kept_sample correlation now (r, none) h = h
  kept_sample correlation now (r, some sample) h = keep_sample sample correlation now r h

  kept_if : (test : Bool) (r r' : Runtime Num) → P r → P r' → P (if test then r else r')
  kept_if true r r' h h' = h
  kept_if false r r' h h' = h'

  pub kept_define :
      (kind : MetricType) (name : Str) (labels : Dict Str) (w : World Num)
      → P w.runtime
      → P (step host (Call.define kind name labels) w).runtime
  unfolding step define_counter define_gauge
  kept_define counter n l w h = keep_update counter n host.zero_value l defines _ h
  kept_define gauge n l w h = keep_update gauge n host.zero_value l defines _ h

  pub kept_add :
      (name : Str) (value : Num) (labels : Dict Str) (c : CorrelationMetadata) (now : Str)
      (w : World Num)
      → P w.runtime
      → P (step host (Call.add name value labels c now) w).runtime
  unfolding step increment
  kept_add n v l c t w h = kept_if _ _ _ h (kept_sample c t _ (keep_update counter n v l adds _ h))

  pub kept_put :
      (kind : MetricType) (name : Str) (value : Num) (labels : Dict Str) (c : CorrelationMetadata)
      (now : Str) (w : World Num)
      → P w.runtime
      → P (step host (Call.put kind name value labels c now) w).runtime
  unfolding step set_counter set_gauge
  kept_put counter n v l c t w h =
      kept_if _ _ _ h (kept_sample c t _ (keep_update counter n v l sets _ h))
  kept_put gauge n v l c t w h =
      kept_if _ _ _ h (kept_sample c t _ (keep_update gauge n v l sets _ h))

module _ {Num : Type 0} (P : Runtime Num → Type 0) where
  pub kept_span :
      (i : ℕ) (f : TelemetrySpan → Runtime Num → TelemetrySpan × Runtime Num)
      → ((span : TelemetrySpan) (r : Runtime Num) → P r → P (f span r).1)
      → (spans : List TelemetrySpan) (r : Runtime Num) → P r
      → P (on_span i f spans r).1
  unfolding on_span
  kept_span i f k [] r h = h
  kept_span zero f k (span ∷ spans) r h = k span r h
  kept_span (suc i) f k (span ∷ spans) r h = kept_span i f k spans r h

module _ {Num : Type 0} (host : Host Num) (P : Runtime Num → Type 0)
    (keep_dispatch : (signal : TelemetrySignal Num) (r : Runtime Num)
      → P r
      → P (dispatch signal r)) where
  pub kept_end_span :
      (attributes : Dict (Unknown Num)) (now : Str) (span : TelemetrySpan) (r : Runtime Num)
      → P r
      → P (end_span host span attributes now r).1
  unfolding end_span
  kept_end_span attributes now span r p = elim (Bool-cases span.ended) [
    | inl e ↦ rw e p
    | inr e ↦ rw e (keep_dispatch _ r p)
  ]

  pub kept_fail_span :
      (name : Option Str) (now : Str) (span : TelemetrySpan) (r : Runtime Num)
      → P r
      → P (fail_span host span name now r).1
  unfolding fail_span
  kept_fail_span name now span r p = kept_end_span (failure_attributes host name) now span r p

module _ {Num : Type 0} (host : Host Num) (P : Runtime Num → Type 0)
    (keep_dispatch : (signal : TelemetrySignal Num) (r : Runtime Num) → P r → P (dispatch signal r))
    (keep_update : (kind : MetricType) (name : Str) (value : Num) (labels : Dict Str) (add : Add)
        (r : Runtime Num)
      → P r
      → P (update_metric host kind name value labels add r).0) where
  kept_step : (call : Call Num) (w : World Num) → P w.runtime → P (step host call w).runtime
  unfolding step log_signal start_span
  kept_step (Call.log l e c a n) w h = keep_dispatch _ _ h
  kept_step (Call.start n c a u t) w h = keep_dispatch _ _ h
  kept_step (Call.end i a n) w h =
      kept_span P i _ (kept_end_span host P keep_dispatch a n) w.spans w.runtime h
  kept_step (Call.fail i e n) w h =
      kept_span P i _ (kept_fail_span host P keep_dispatch e n) w.spans w.runtime h
  kept_step (Call.define k n l) w h =
      kept_define host P (λ s c t. keep_dispatch _) keep_update k n l w h
  kept_step (Call.add n v l c t) w h =
      kept_add host P (λ s c' t'. keep_dispatch _) keep_update n v l c t w h
  kept_step (Call.put k n v l c t) w h =
      kept_put host P (λ s c' t'. keep_dispatch _) keep_update k n v l c t w h

  pub kept_run :
      (calls : List (Call Num)) (w : World Num) → P w.runtime → P (run host calls w).runtime
  unfolding run
  kept_run [] w h = h
  kept_run (call ∷ calls) w h = kept_run calls (step host call w) (kept_step call w h)
