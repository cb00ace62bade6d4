-- ===== src/Telemetry/Labels.antt =====
-- Attributes and labels: packages/telemetry/src/index.ts, `safeTelemetryAttributes`, `safeLabels`
-- and `labelsKey`. An object is its entries in the order of `Object.entries`.
use tracegarden.Prelude.{
  ℕ, not, ◌||◌, Option, none, some, List, [], ◌∷◌, ◌++◌, leb, if◌then◌else◌, length, Str, js, ◌===◌,
}
use tracegarden.Prelude.Dict.{Dict, set}
use tracegarden.Telemetry.Names.{
  join_with, is_attribute_name, is_label_name, unsafe_name, safe_string,
}
use tracegarden.Telemetry.Signals.{Host, Unknown, Scalar}

module _ {Num : Type 0} (host : Host Num) where
  unfoldable pub safe_scalar : Unknown Num → Option (Scalar Num)
  safe_scalar (Unknown.text s) = some (Scalar.text (safe_string s))
  safe_scalar (Unknown.number n) = if host.is_finite n then some (Scalar.number n) else none
  safe_scalar (Unknown.boolean b) = some (Scalar.boolean b)
  safe_scalar Unknown.null = some Scalar.null
  safe_scalar Unknown.other = none

  abbrev pub safe_attribute : Str → Unknown Num → Dict (Scalar Num) → Dict (Scalar Num)
  safe_attribute key value safe =
      if not (is_attribute_name key) || unsafe_name key
      then safe
      else elim (safe_scalar value) [ none ↦ safe | some scalar ↦ set key scalar safe ]

  unfoldable pub safe_attributes_from : Dict (Unknown Num) → Dict (Scalar Num) → Dict (Scalar Num)
  safe_attributes_from [] safe = safe
  safe_attributes_from ((key, value) ∷ input) safe =
      safe_attributes_from input (safe_attribute key value safe)

  unfoldable pub safe_telemetry_attributes : Option (Dict (Unknown Num)) → Dict (Scalar Num)
  unfolding safe_attributes_from safe_scalar
  safe_telemetry_attributes none = []
  safe_telemetry_attributes (some input) = safe_attributes_from input []

  -- `entries.sort(([left], [right]) => left.localeCompare(right))`, which is stable.
  unfoldable pub insert_entry : Str → Str → Dict Str → Dict Str
  insert_entry key value [] = (key, value) ∷ []
  insert_entry key value ((k, v) ∷ entries) =
      let rest = insert_entry key value entries in
      if host.sorts_after key k then (k, v) ∷ rest else (key, value) ∷ (k, v) ∷ entries

  unfoldable pub sort_entries : Dict Str → Dict Str
  unfolding insert_entry
  sort_entries [] = []
  sort_entries ((key, value) ∷ entries) = insert_entry key value (sort_entries entries)

abbrev pub max_label_keys : ℕ
max_label_keys = 8

-- `labels[key] = value`: a text given to `__proto__` is ignored.
abbrev pub assign_label : Str → Str → Dict Str → Dict Str
assign_label key value labels = if key === js "__proto__" then labels else set key value labels

unfoldable pub safe_labels_from : Dict Str → Dict Str → Dict Str
unfolding ◌===◌ is_label_name unsafe_name safe_string
safe_labels_from [] labels = labels
safe_labels_from ((key, value) ∷ entries) labels =
    let rest = safe_labels_from entries (
      if not (is_label_name key) || unsafe_name key
      then labels
      else assign_label key (safe_string value) labels) in
    if leb max_label_keys (length labels) then labels else rest

module _ {Num : Type 0} (host : Host Num) where
  unfoldable pub safe_labels : Dict Str → Dict Str
  unfolding safe_labels_from sort_entries
  safe_labels input = safe_labels_from (sort_entries host input) []

  abbrev pub label_pairs : Dict Str → List Str
  label_pairs [] = []
  label_pairs ((key, value) ∷ entries) = (key ++ b'=' ∷ value) ∷ label_pairs entries

  unfoldable pub labels_key : Dict Str → Str
  unfolding sort_entries
  labels_key labels = join_with b',' (label_pairs (sort_entries host labels))
