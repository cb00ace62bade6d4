-- ===== src/Telemetry/Spans.antt =====
-- Each span is started once and ended at most once: packages/telemetry/src/index.ts, `startSpan`.
use tracegarden.Prelude.{
  ℕ, zero, suc, ◌≡◌, refl, sym, ap, ◌∙◌, inl, inr, Bool, true, false, List, [], ◌∷◌, ◌++◌, map,
  arith, if◌then◌else◌, Bool-cases, filter, Str, append-nil,
}
use tracegarden.Prelude.Dict.{Dict}
use tracegarden.Telemetry.Names.{safe_string}
use tracegarden.Telemetry.Signals.{
  counter, gauge, Unknown, Host, CorrelationMetadata, MetricType, SpanEvent, span_start, span_end,
  TelemetrySignal, log, trace, metric, MetricValue,
}
use tracegarden.Telemetry.Runtime.{
  Runtime, TelemetrySpan, dispatch, log_signal, start_span, end_span, fail_span, failure_attributes,
}
use tracegarden.Telemetry.Metrics.{Add, update_metric, metric_signal}
use tracegarden.Telemetry.Steps.{Call, World, on_span, step, run}
use tracegarden.Telemetry.Kept.{kept_define, kept_add, kept_put}
use tracegarden.Telemetry.Recent.{update_metric-quiet}
use mathlib.Core.List.{Perm, perm_middle, perm_append_comm, map-append}
use mathlib.Core.List.Perm

abbrev is_event : SpanEvent → SpanEvent → Bool
is_event span_start span_start = true
is_event span_start span_end = false
is_event span_end span_start = false
is_event span_end span_end = true

module _ {Num : Type 0} where
  -- The names and ids of the spans that the signals of one event are about.
  abbrev pub events : SpanEvent → List (TelemetrySignal Num) → List (Str × CorrelationMetadata)
  events e [] = []
  events e (trace t ∷ signals) =
      let rest = events e signals in
      if is_event e t.event then (t.name, t.correlation) ∷ rest else rest
  events e (log s ∷ signals) = events e signals
  events e (metric s ∷ signals) = events e signals

  events-append :
      (e : SpanEvent) (xs ys : List (TelemetrySignal Num))
      → events e (xs ++ ys) ≡ events e xs ++ events e ys
  events-append e [] ys = refl
  events-append e (trace t ∷ xs) ys = ground (arith, events-append e xs ys)
  events-append e (log s ∷ xs) ys = events-append e xs ys
  events-append e (metric s ∷ xs) ys = events-append e xs ys

abbrev pub label : TelemetrySpan → Str × CorrelationMetadata
label span = (safe_string span.name, span.correlation)

abbrev pub ended_labels : List TelemetrySpan → List (Str × CorrelationMetadata)
ended_labels spans = map label (filter (λ span. span.ended) spans)

Perm-along {ℓ} :
    {A : Type ℓ} {xs xs' ys ys' : List A} → xs ≡ xs' → ys ≡ ys' → Perm xs ys → Perm xs' ys'
Perm-along p q h = rw (← p, ← q) h

ended_labels-open :
    (spans : List TelemetrySpan) (span : TelemetrySpan)
    → span.ended ≡ false
    → ended_labels (spans ++ span ∷ []) ≡ ended_labels spans
ended_labels-open [] span h = rw h refl
ended_labels-open (s ∷ spans) span h = ground (arith, ended_labels-open spans span h)

module _ {Num : Type 0} where
  -- The start signals are those of the spans in their order, and the end signals are those of the
  -- spans that are ended, in the order of their ends.
  pub record IsTraced (w : World Num) : Type 0 where
    pub starts : events span_start w.runtime.emitted ≡ map label w.spans
    pub ends : Perm (events span_end w.runtime.emitted) (ended_labels w.spans)

  -- What one call of a span's closure does.
  record Closes (spans spans' : List TelemetrySpan) (r r' : Runtime Num) : Type 0 where
    labels : map label spans' ≡ map label spans
    starts : events span_start r'.emitted ≡ events span_start r.emitted
    closed : List (Str × CorrelationMetadata)
    ends : events span_end r'.emitted ≡ events span_end r.emitted ++ closed
    ended : Perm (ended_labels spans') (closed ++ ended_labels spans)

  Closes-later :
      (span : TelemetrySpan) (spans spans' : List TelemetrySpan) (r r' : Runtime Num)
      → Closes spans spans' r r'
      → Closes (span ∷ spans) (span ∷ spans') r r'
  Closes-later span spans spans' r r' c = record {
    labels = ap (λ ls. label span ∷ ls) c.labels;
    starts = c.starts;
    closed = c.closed;
    ends = c.ends;
    ended = elim (Bool-cases span.ended) [
      | inl e ↦ rw e (
          Perm.trans (Perm.cons (label span) c.ended)
            (Perm.symm (perm_middle c.closed (ended_labels spans))))
      | inr e ↦ rw e c.ended
    ];
  }

module _ {Num : Type 0} (host : Host Num) where
  end_span-Closes :
      (attributes : Dict (Unknown Num)) (now : Str) (span : TelemetrySpan)
      (spans : List TelemetrySpan) (r : Runtime Num)
      → let (span', r') = end_span host span attributes now r in
        Closes (span ∷ spans) (span' ∷ spans) r r'
  unfolding end_span dispatch
  end_span-Closes attributes now span spans r = elim (Bool-cases span.ended) [
    | inl e ↦ rw e (record {
      labels = refl;
      starts = refl;
      closed = [];
      ends = sym (append-nil _);
      ended = Perm.refl _;
    })
    | inr e ↦ rw e (record {
      labels = refl;
      starts = events-append span_start r.emitted _ ∙ append-nil _;
      closed = label span ∷ [];
      ends = events-append span_end r.emitted _;
      ended = Perm.refl _;
    })
  ]

  on_span-Closes :
      (i : ℕ) (attributes : Dict (Unknown Num)) (now : Str) (spans : List TelemetrySpan)
      (r : Runtime Num)
      → let (spans', r') = on_span i (λ span r. end_span host span attributes now r) spans r in
        Closes spans spans' r r'
  unfolding on_span
  on_span-Closes i attributes now [] r = record {
    labels = refl;
    starts = refl;
    closed = [];
    ends = sym (append-nil _);
    ended = Perm.refl _;
  }
  on_span-Closes zero attributes now (span ∷ spans) r = end_span-Closes attributes now span spans r
  on_span-Closes (suc i) attributes now (span ∷ spans) r =
      Closes-later span spans _ r _ (on_span-Closes i attributes now spans r)

  Closes-IsTraced :
      (w w' : World Num) → Closes w.spans w'.spans w.runtime w'.runtime → IsTraced w → IsTraced w'
  Closes-IsTraced w w' c t = record {
    starts = c.starts ∙ t.starts ∙ sym c.labels;
    ends = rw c.ends (
        Perm.trans (Perm.append_right c.closed t.ends)
          (Perm.trans (perm_append_comm (ended_labels w.spans) c.closed) (Perm.symm c.ended)));
  }

  -- What leaves the span events as they are.
  abbrev SameEvents : World Num → Runtime Num → Type 0
  SameEvents w r = (e : SpanEvent) → events e r.emitted ≡ events e w.runtime.emitted

  SameEvents-IsTraced :
      (w : World Num) (r : Runtime Num)
      → SameEvents w r
      → IsTraced w
      → IsTraced (record w { runtime = r })
  SameEvents-IsTraced w r s t = record {
    starts = s span_start ∙ t.starts;
    ends = rw (s span_end) t.ends;
  }

  metric-SameEvents :
      (w : World Num) (sample : MetricValue Num) (c : CorrelationMetadata) (now : Str)
      (r : Runtime Num)
      → SameEvents w r
      → SameEvents w (dispatch (metric_signal host sample c now) r)
  unfolding dispatch
  metric-SameEvents w sample c now r h e = events-append e r.emitted _ ∙ append-nil _ ∙ h e

  update-SameEvents :
      (w : World Num) (kind : MetricType) (name : Str) (value : Num) (labels : Dict Str) (add : Add)
      (r : Runtime Num)
      → SameEvents w r
      → SameEvents w (update_metric host kind name value labels add r).0
  update-SameEvents w kind name value labels add r h e =
      rw ((update_metric-quiet host kind name value labels add r).0) (h e)

  step-IsTraced : (call : Call Num) (w : World Num) → IsTraced w → IsTraced (step host call w)
  unfolding step log_signal start_span fail_span dispatch
  step-IsTraced (Call.log l e c a n) w t =
      SameEvents-IsTraced w _ (λ e. events-append e w.runtime.emitted _ ∙ append-nil _) t
  step-IsTraced (Call.start n c a u now) w t = record {
    starts =
        events-append span_start w.runtime.emitted _
        ∙ ap (λ ls. ls ++ label (start_span host n c a u now w.runtime).0 ∷ []) t.starts
        ∙ sym (map-append label w.spans _);
    ends =
        Perm-along (sym (events-append span_end w.runtime.emitted _ ∙ append-nil _))
          (sym (ended_labels-open w.spans _ refl)) t.ends;
  }
  step-IsTraced (Call.end i a n) w t =
      Closes-IsTraced w _ (on_span-Closes i a n w.spans w.runtime) t
  step-IsTraced (Call.fail i e n) w t =
      Closes-IsTraced w _ (on_span-Closes i (failure_attributes host e) n w.spans w.runtime) t
  step-IsTraced (Call.define counter n l) w t =
      SameEvents-IsTraced w _
        (kept_define host (SameEvents w) (metric-SameEvents w) (update-SameEvents w) counter n l w
          (λ e. refl))
        t
  step-IsTraced (Call.define gauge n l) w t =
      SameEvents-IsTraced w _
        (kept_define host (SameEvents w) (metric-SameEvents w) (update-SameEvents w) gauge n l w
          (λ e. refl))
        t
  step-IsTraced (Call.add n v l c now) w t =
      SameEvents-IsTraced w _
        (kept_add host (SameEvents w) (metric-SameEvents w) (update-SameEvents w) n v l c now w
          (λ e. refl))
        t
  step-IsTraced (Call.put counter n v l c now) w t =
      SameEvents-IsTraced w _
        (kept_put host (SameEvents w) (metric-SameEvents w) (update-SameEvents w) counter n v l c
          now w (λ e. refl))
        t
  step-IsTraced (Call.put gauge n v l c now) w t =
      SameEvents-IsTraced w _
        (kept_put host (SameEvents w) (metric-SameEvents w) (update-SameEvents w) gauge n v l c now
          w (λ e. refl))
        t

  -- Whatever calls are made, the signals of the spans' starts are those of the spans in their order,
  -- and the signals of their ends are, up to their order, those of the spans that are ended: each
  -- span is started once, and ended at most once however often it is ended or failed.
  pub run-IsTraced :
      (calls : List (Call Num)) (w : World Num) → IsTraced w → IsTraced (run host calls w)
  unfolding run
  run-IsTraced [] w t = t
  run-IsTraced (call ∷ calls) w t = run-IsTraced calls (step host call w) (step-IsTraced call w t)
