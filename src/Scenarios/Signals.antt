-- ===== src/Scenarios/Signals.antt =====
-- The theorems on telemetry at a run of a small service.
use tracegarden.Telemetry.Signals.{Scalar}
use tracegarden.Telemetry.Exportable.{IsExportable}
use tracegarden.Prelude.{
  ℕ, ◌+◌, ◌≡◌, refl, true, false, none, some, List, [], ◌∷◌, ◌++◌, arith, Str, js, ◌===◌, ltb_str,
}
use tracegarden.Prelude.Dict.{Dict, get}
use tracegarden.Telemetry.Names.{prometheus_label_value}
use tracegarden.Telemetry.Signals.{Host, Unknown, CorrelationMetadata, info, counter}
use tracegarden.Telemetry.Labels.{safe_telemetry_attributes, labels_key}
use tracegarden.Telemetry.Runtime.{threw, TelemetryOptions, log_exporter}
use tracegarden.Telemetry.Steps.{Call, World, run}
use tracegarden.Telemetry.Attributes.{
  exported_as, get-safe_telemetry_attributes, labels_key_collision,
}
use tracegarden.Telemetry.Escaping.{read_quoted, read_quoted-prometheus_label_value}
use tracegarden.Telemetry.Series.{HasSafeSeries, run-HasSafeSeries}
use tracegarden.Telemetry.Exports.{ExportsAll, run-ExportsAll}
use tracegarden.Telemetry.Spans.{IsTraced, run-IsTraced}
use tracegarden.Telemetry.Totals.{HasValue, replay, run-HasValue}
use mathlib.Core.List.Perm

abbrev host : Host ℕ
host = record {
  zero_value = 0;
  plus = λ a b. a + b;
  is_finite = λ n. true;
  is_negative = λ n. false;
  show = λ n. (b'0' + n) ∷ [];
  sorts_after = λ a b. ltb_str b a;
}

-- The log exporter always throws, and no other is configured.
abbrev options : TelemetryOptions ℕ
options = record {
  service_name = js "web";
  exporter = λ sink. elim sink [ log_exporter ↦ some (λ signal. threw) | _ ↦ none ];
}

abbrev ids : CorrelationMetadata
ids = record { request_id = js "r"; trace_id = js "t"; span_id = js "s" }

abbrev started : World ℕ
started = record {
  runtime = record {
    service_name = js "web";
    options = options;
    counters = [];
    gauges = [];
    signal_history = [];
    emitted = [];
    exported = [];
  };
  spans = [];
}

-- A span that is failed and then ended, between two increments of one counter.
abbrev calls : List (Call ℕ)
calls =
    Call.start (js "list") ids [] (js "u-1") (js "now")
    ∷ Call.add (js "hits") 2 [] ids (js "now")
    ∷ Call.fail 0 none (js "now")
    ∷ Call.end 0 [] (js "now")
    ∷ Call.log info (js "done") ids [] (js "now")
    ∷ Call.add (js "hits") 3 [] ids (js "now")
    ∷ []

run-HasSafeSeries_example : HasSafeSeries (run host calls started).runtime
run-HasSafeSeries_example = run-HasSafeSeries host calls started (record {
  few = omega arith;
  distinct_counters = tt;
  distinct_gauges = tt;
  safe_counters = tt;
  safe_gauges = tt;
})

run-ExportsAll_example : ExportsAll log_exporter (run host calls started).runtime
run-ExportsAll_example = run-ExportsAll host log_exporter calls started refl

run-IsTraced_example : IsTraced (run host calls started)
run-IsTraced_example =
    run-IsTraced host calls started (record { starts = refl; ends = Perm.refl [] })

abbrev hits : Str
hits = js "hits|"

-- The counter stands at 1 before the run.
abbrev counted : World ℕ
counted = record started {
  runtime = record (started.runtime) {
    counters = (hits, record { name = js "hits"; kind = counter; value = 1; labels = [] }) ∷ [];
  };
}

run-HasValue_example :
    HasValue host counter hits (replay host counter hits calls 1) (run host calls counted).runtime
unfolding get ◌===◌
run-HasValue_example = run-HasValue host counter hits calls counted 1 refl

abbrev attributes : Dict (Unknown ℕ)
attributes =
    (js "route", Unknown.text (js "/timeline"))
    ∷ (js "note", Unknown.text (js "secret"))
    ∷ (js "status", Unknown.number 200)
    ∷ []

get-safe_telemetry_attributes_example :
    (get (js "status") (safe_telemetry_attributes host (some attributes))
      ≡ exported_as host (js "status") attributes)
    × ((value : Scalar ℕ)
        → get (js "status") (safe_telemetry_attributes host (some attributes)) ≡ some value
        → IsExportable (js "status"))
unfolding get ◌===◌
get-safe_telemetry_attributes_example =
    get-safe_telemetry_attributes host (js "status") attributes (refl, (refl, (refl, tt)))

read_quoted-prometheus_label_value_example :
    read_quoted (prometheus_label_value (js "a\"b\\c") ++ b'"' ∷ js " 1")
    ≡ some (js "a\"b\\c", js " 1")
read_quoted-prometheus_label_value_example =
    read_quoted-prometheus_label_value (js "a\"b\\c") (js " 1")

labels_key_collision_example :
    labels_key host ((js "a", js "1" ++ b',' ∷ js "b" ++ b'=' ∷ js "2") ∷ [])
    ≡ labels_key host ((js "a", js "1") ∷ (js "b", js "2") ∷ [])
unfolding ltb_str
labels_key_collision_example = labels_key_collision host (js "a") (js "1") (js "b") (js "2") refl
