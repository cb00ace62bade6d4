-- ===== src/Telemetry/Signals.antt =====
-- The signals of telemetry: packages/telemetry/src/index.ts, the exported types. The type of the
-- JavaScript numbers is the parameter `Num`.
use tracegarden.Prelude.{Bool, Str}
use tracegarden.Prelude.Dict.{Dict}

-- What the code uses of numbers and of `localeCompare`: `sorts_after a b` is
-- `a.localeCompare(b) > 0`, and `show` is the number in a template literal.
pub record Host (Num : Type 0) : Type 0 where
  pub zero_value : Num
  pub plus : Num → Num → Num
  pub is_finite : Num → Bool
  pub is_negative : Num → Bool
  pub show : Num → Str
  pub sorts_after : Str → Str → Bool

-- An `unknown` attribute: `other` is `undefined`, an object, a function, a symbol or a bigint.
pub data Unknown (Num : Type 0) : Type 0 where
  text : Str → Unknown Num
  number : Num → Unknown Num
  boolean : Bool → Unknown Num
  null : Unknown Num
  other : Unknown Num

pub data Scalar (Num : Type 0) : Type 0 where
  text : Str → Scalar Num
  number : Num → Scalar Num
  boolean : Bool → Scalar Num
  null : Scalar Num

pub record CorrelationMetadata : Type 0 where
  pub request_id : Str
  pub trace_id : Str
  pub span_id : Str

pub data Level : Type 0 where
  debug : Level
  info : Level
  warn : Level
  error : Level

pub record StructuredLogSignal (Num : Type 0) : Type 0 where
  pub level : Level
  pub event : Str
  pub timestamp : Str
  pub correlation : CorrelationMetadata
  pub attributes : Dict (Scalar Num)

pub data SpanEvent : Type 0 where
  span_start : SpanEvent
  span_end : SpanEvent

pub record TraceSignal (Num : Type 0) : Type 0 where
  pub event : SpanEvent
  pub name : Str
  pub timestamp : Str
  pub correlation : CorrelationMetadata
  pub attributes : Dict (Scalar Num)

pub data MetricType : Type 0 where
  counter : MetricType
  gauge : MetricType

pub record MetricValue (Num : Type 0) : Type 0 where
  pub name : Str
  pub kind : MetricType
  pub value : Num
  pub labels : Dict Str

pub record MetricSignal (Num : Type 0) : Type 0 where
  pub name : Str
  pub kind : MetricType
  pub value : Num
  pub timestamp : Str
  pub correlation : CorrelationMetadata
  pub labels : Dict Str

pub data TelemetrySignal (Num : Type 0) : Type 0 where
  log : StructuredLogSignal Num → TelemetrySignal Num
  trace : TraceSignal Num → TelemetrySignal Num
  metric : MetricSignal Num → TelemetrySignal Num
