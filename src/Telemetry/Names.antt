-- ===== src/Telemetry/Names.antt =====
-- Names and texts of telemetry: packages/telemetry/src/index.ts, the patterns, `unsafeName`,
-- `safeString`, `id`, the random ids, and `prometheusLabelValue`.
use tracegarden.Prelude.{
  ℕ, ◌+◌, ◌≤◌, Bool, true, false, not, ◌&&◌, ◌||◌, Option, none, some, List, [], ◌∷◌, ◌++◌, map,
  arith, ltb, leb, ◌==◌, if◌then◌else◌, length, take, any, all, filter, length-take, Str, js, ◌===◌,
  trim, truthy,
}

abbrev is_letter : ℕ → Bool
is_letter c = (leb b'a' c && leb c b'z') || (leb b'A' c && leb c b'Z')

abbrev is_digit : ℕ → Bool
is_digit c = leb b'0' c && leb c b'9'

-- A text of a first unit, and of at most `n` units of the rest.
abbrev matches_name : (ℕ → Bool) → (ℕ → Bool) → ℕ → Str → Bool
matches_name first rest n [] = false
matches_name first rest n (c ∷ s) = first c && all rest s && leb (length s) n

-- /^[a-zA-Z][a-zA-Z0-9_.-]{0,63}$/
unfoldable pub is_attribute_name : Str → Bool
is_attribute_name =
    matches_name is_letter (λ c. is_letter c || is_digit c || c == b'_' || c == b'.' || c == b'-')
      63

-- /^[a-zA-Z_:][a-zA-Z0-9_:]{0,127}$/
unfoldable pub is_metric_name : Str → Bool
is_metric_name =
    matches_name (λ c. is_letter c || c == b'_' || c == b':')
      (λ c. is_letter c || is_digit c || c == b'_' || c == b':') 127

-- /^[a-zA-Z_][a-zA-Z0-9_]{0,63}$/
unfoldable pub is_label_name : Str → Bool
is_label_name =
    matches_name (λ c. is_letter c || c == b'_') (λ c. is_letter c || is_digit c || c == b'_') 63

abbrev pub unsafe_attribute_names : List Str
unsafe_attribute_names =
    js "body"
    ∷ js "content"
    ∷ js "contents"
    ∷ js "exception"
    ∷ js "error"
    ∷ js "exception_message"
    ∷ js "log"
    ∷ js "logs"
    ∷ js "message"
    ∷ js "note"
    ∷ js "payload"
    ∷ js "request_body"
    ∷ js "response_body"
    ∷ js "stack"
    ∷ []

-- `s.startsWith(part)` and `s.includes(part)`.
unfoldable pub starts_with : Str → Str → Bool
starts_with s [] = true
starts_with [] (p ∷ part) = false
starts_with (c ∷ s) (p ∷ part) = c == p && starts_with s part

unfoldable pub includes : Str → Str → Bool
unfolding starts_with
includes [] part = starts_with [] part
includes (c ∷ s) part = starts_with (c ∷ s) part || includes s part

-- `value.toLowerCase().replaceAll("-", "_")` on the ASCII texts that the patterns let through.
unfoldable pub normalized : Str → Str
normalized = map (λ c. if c == b'-' then b'_' else if leb b'A' c && leb c b'Z' then c + 32 else c)

unfoldable pub unsafe_name : Str → Bool
unfolding normalized includes ◌===◌
unsafe_name value =
    let name = normalized value in
    any (λ s. s === name) unsafe_attribute_names
    || any (includes name)
        (js "body" ∷ js "content" ∷ js "payload" ∷ js "stack" ∷ js "exception" ∷ [])
    || includes name (js "message")
    || includes name (js "log")

unfoldable pub safe_string : Str → Str
safe_string value = if ltb 256 (length value) then take 256 value else value

length-cut : (n : ℕ) (s : Str) → length (if ltb n (length s) then take n s else s) ≤ n
length-cut n s = ground (arith, length-take n s)

pub length-safe_string : (s : Str) → length (safe_string s) ≤ 256
unfolding safe_string
length-safe_string s = length-cut 256 s

-- /^[A-Za-z0-9._:-]{1,128}$/
unfoldable pub is_id : Str → Bool
is_id s =
    all (λ c. is_letter c || is_digit c || c == b'.' || c == b'_' || c == b':' || c == b'-') s
    && leb 1 (length s)
    && leb (length s) 128

-- `id`, with what `fallback()` returns as an argument.
unfoldable pub id : Option Str → Str → Str
unfolding trim is_id unsafe_name
id none fallback = fallback
id (some value) fallback =
    let candidate = trim value in
    if truthy candidate && is_id candidate && not (unsafe_name candidate)
    then candidate
    else fallback

-- From what `randomUUID()` returns.
unfoldable pub random_trace_id : Str → Str
random_trace_id uuid = filter (λ c. not (c == b'-')) uuid

unfoldable pub random_span_id : Str → Str
unfolding random_trace_id
random_span_id uuid = take 16 (random_trace_id uuid)

-- `parts.join(separator)` for a separator of one code unit.
abbrev pub join_with : ℕ → List Str → Str
join_with c [] = []
join_with c (part ∷ []) = part
join_with c (part ∷ p ∷ parts) = part ++ c ∷ join_with c (p ∷ parts)

-- `value.replaceAll(c, by)` for one code unit.
unfoldable pub replace_all : ℕ → Str → Str → Str
replace_all c by [] = []
replace_all c by (x ∷ s) = let rest = replace_all c by s in if x == c then by ++ rest else x ∷ rest

unfoldable pub prometheus_label_value : Str → Str
unfolding replace_all
prometheus_label_value value =
    replace_all b'"' (b'\\' ∷ b'"' ∷ [])
      (replace_all 10 (b'\\' ∷ b'n' ∷ []) (replace_all b'\\' (b'\\' ∷ b'\\' ∷ []) value))
