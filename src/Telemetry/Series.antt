-- ===== src/Telemetry/Series.antt =====
-- The series of a runtime stay few, and their names and labels safe: packages/telemetry/src/index.ts,
-- `safeLabels` and `updateMetric`.
use tracegarden.Prelude.{
  suc, ◌+◌, ◌≤◌, ◌≡◌, refl, inl, inr, true, false, not, ◌&&◌, ◌||◌, List, [], ◌∷◌, arith, leb,
  if◌then◌else◌, Bool-cases, is_some, length, All, Str, js, ◌===◌,
}
use tracegarden.Prelude.Dict.{Dict, get, set, values, All-set, KeysDistinct, set-KeysDistinct}
use tracegarden.Telemetry.Names.{
  is_metric_name, is_label_name, unsafe_name, safe_string, length-safe_string,
}
use tracegarden.Telemetry.Signals.{Host, MetricType, counter, gauge, MetricValue, TelemetrySignal}
use tracegarden.Telemetry.Labels.{
  safe_labels, safe_labels_from, sort_entries, assign_label, max_label_keys,
}
use tracegarden.Telemetry.Runtime.{Runtime, dispatch}
use tracegarden.Telemetry.Metrics.{
  Add, update_metric, series_key, target, with_target, max_metric_series,
}
use tracegarden.Telemetry.Steps.{Call, World, run}
use tracegarden.Telemetry.Kept.{kept_run}

-- A label that may be exported: a well-formed name that shows no protected content, a short value.
abbrev pub IsSafeLabel : Str × Str → Type 0
IsSafeLabel (key, value) =
    (is_label_name key ≡ true) × (unsafe_name key ≡ false) × (length value ≤ 256)

abbrev pub AreSafeLabels : Dict Str → Type 0
AreSafeLabels labels = All IsSafeLabel labels × (length labels ≤ max_label_keys)

All-set_entry :
    (key value : Str) (labels : Dict Str)
    → IsSafeLabel (key, value)
    → All IsSafeLabel labels
    → All IsSafeLabel (set key value labels)
unfolding set
All-set_entry key value [] p h = (p, tt)
All-set_entry key value ((k, v) ∷ labels) p h = elim (Bool-cases (k === key)) [
  | inl e ↦ rw e ((h.0.0, h.0.1, p.2), h.1)
  | inr e ↦ rw e (h.0, All-set_entry key value labels p h.1)
]

length-set {ℓ} :
    {V : Type ℓ} (key : Str) (value : V) (m : Dict V)
    → length (set key value m) ≡ (if is_some (get key m) then length m else suc (length m))
unfolding set get
length-set key value [] = refl
length-set key value ((k, v) ∷ m) = ground (arith, length-set key value m)

IsSafe-assign_label :
    (key value : Str) (labels : Dict Str)
    → (not (is_label_name key) || unsafe_name key) ≡ false
    → All IsSafeLabel labels
    → All IsSafeLabel (assign_label key (safe_string value) labels)
IsSafe-assign_label key value labels t h = elim (Bool-cases (key === js "__proto__")) [
  | inl e ↦ rw e h
  | inr e ↦ rw e (
      All-set_entry key (safe_string value) labels
        (ground arith, ground arith, length-safe_string value) h)
]

length-assign_label :
    (key value : Str) (labels : Dict Str)
    → length (assign_label key value labels) ≤ suc (length labels)
length-assign_label key value labels = ground (arith, length-set key value labels)

safe_labels_from-IsSafe :
    (entries labels : Dict Str)
    → AreSafeLabels labels
    → AreSafeLabels (safe_labels_from entries labels)
unfolding safe_labels_from
safe_labels_from-IsSafe [] labels h = h
safe_labels_from-IsSafe ((key, value) ∷ entries) labels h =
    elim (Bool-cases (leb max_label_keys (length labels))) [
      | inl full ↦ rw full h
      | inr room ↦ rw room (elim (Bool-cases (not (is_label_name key) || unsafe_name key)) [
        | inl skip ↦ rw skip (safe_labels_from-IsSafe entries labels h)
        | inr keep ↦ rw keep (
            safe_labels_from-IsSafe entries (assign_label key (safe_string value) labels) (
              IsSafe-assign_label key value labels keep h.0,
              ground (arith, length-assign_label key (safe_string value) labels),
            ))
      ])
    ]

pub safe_labels-AreSafe :
    {Num : Type 0} (host : Host Num) (labels : Dict Str) → AreSafeLabels (safe_labels host labels)
unfolding safe_labels
safe_labels-AreSafe host labels =
    safe_labels_from-IsSafe (sort_entries host labels) [] (tt, omega arith)

module _ {Num : Type 0} where
  abbrev pub IsSafeSample : MetricType → MetricValue Num → Type 0
  IsSafeSample kind sample =
      (sample.kind ≡ kind) × (is_metric_name sample.name ≡ true) × AreSafeLabels sample.labels

  -- At most 1,000 series, each under a key of its own, with a well-formed name and safe labels.
  pub record HasSafeSeries (r : Runtime Num) : Type 0 where
    pub few : length r.counters + length r.gauges ≤ max_metric_series
    pub distinct_counters : KeysDistinct r.counters
    pub distinct_gauges : KeysDistinct r.gauges
    pub safe_counters : All (IsSafeSample counter) (values r.counters)
    pub safe_gauges : All (IsSafeSample gauge) (values r.gauges)

module _ {Num : Type 0} (host : Host Num) where
  dispatch-HasSafeSeries :
      (signal : TelemetrySignal Num) (r : Runtime Num)
      → HasSafeSeries r
      → HasSafeSeries (dispatch signal r)
  unfolding dispatch
  dispatch-HasSafeSeries signal r h = record {
    few = h.few;
    distinct_counters = h.distinct_counters;
    distinct_gauges = h.distinct_gauges;
    safe_counters = h.safe_counters;
    safe_gauges = h.safe_gauges;
  }

  put-HasSafeSeries :
      (kind : MetricType) (key : Str) (sample : MetricValue Num) (r : Runtime Num)
      → IsSafeSample kind sample
      → (not (is_some (get key (target host kind r)))
          && leb max_metric_series (length r.counters + length r.gauges))
        ≡ false
      → HasSafeSeries r
      → HasSafeSeries (with_target host kind (set key sample (target host kind r)) r)
  put-HasSafeSeries counter key sample r safe room h = record {
    few = ground (arith, h.few, length-set key sample r.counters);
    distinct_counters = set-KeysDistinct key sample r.counters h.distinct_counters;
    distinct_gauges = h.distinct_gauges;
    safe_counters = All-set _ key sample r.counters safe h.safe_counters;
    safe_gauges = h.safe_gauges;
  }
  put-HasSafeSeries gauge key sample r safe room h = record {
    few = ground (arith, h.few, length-set key sample r.gauges);
    distinct_counters = h.distinct_counters;
    distinct_gauges = set-KeysDistinct key sample r.gauges h.distinct_gauges;
    safe_counters = h.safe_counters;
    safe_gauges = All-set _ key sample r.gauges safe h.safe_gauges;
  }

  update_metric-HasSafeSeries :
      (kind : MetricType) (name : Str) (value : Num) (labels : Dict Str) (add : Add)
      (r : Runtime Num)
      → HasSafeSeries r
      → HasSafeSeries (update_metric host kind name value labels add r).0
  unfolding update_metric
  update_metric-HasSafeSeries kind name value labels add r h =
      elim (Bool-cases (is_metric_name name)) [
        | inr bad ↦ rw bad h
        | inl good ↦
            rw good
              (elim (Bool-cases (
                not (is_some (get (series_key host name labels) (target host kind r)))
                && leb max_metric_series (length r.counters + length r.gauges))) [
                  | inl full ↦ rw full h
                  | inr room ↦ rw room (
                      put-HasSafeSeries kind _ _ r (refl, good, safe_labels-AreSafe host labels)
                        room h)
                ])
      ]

  -- Whatever calls are made, in whatever order, a runtime whose series are few, distinct and safe
  -- stays so: no more than 1,000 counters and gauges together, each under its own key, each with a
  -- well-formed name, its own type, and at most eight labels, all with a well-formed name that shows
  -- no protected content and a value of at most 256 units.
  pub run-HasSafeSeries :
      (calls : List (Call Num)) (w : World Num)
      → HasSafeSeries w.runtime
      → HasSafeSeries (run host calls w).runtime
  run-HasSafeSeries = kept_run host HasSafeSeries dispatch-HasSafeSeries update_metric-HasSafeSeries
