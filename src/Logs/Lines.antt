-- ===== src/Logs/Lines.antt =====
-- The lines of a log and their bounds: packages/logs/src/index.ts, `normalizeLines`, `utf8Prefix`
-- and `boundRecentLogWindow`.
use tracegarden.Prelude.{
  ℕ, zero, suc, ◌-◌, Bool, false, ◌&&◌, Option, none, some, List, [], ◌∷◌, ◌++◌, ltb, leb, ◌==◌,
  if◌then◌else◌, length, take, drop, Str, truthy,
}
use tracegarden.Prelude.Value.{split, split_on}
use tracegarden.Logs.Utf8.{text_encode, text_decode}
use Prim.Native.Nat.{bit_and}

abbrev pub log_max_lines : ℕ
log_max_lines = 200

abbrev pub log_max_bytes : ℕ
log_max_bytes = 1048576

pub data LogPayload : Type 0 where
  text : Str → LogPayload
  lines : List Str → LogPayload

-- `s.split(/\r?\n/)`: the part before the first separator, and the others.
unfoldable pub split_lines : Str → Str × List Str
split_lines [] = ([], [])
split_lines (c ∷ []) = if c == 10 then ([], [] ∷ []) else (c ∷ [], [])
split_lines (c ∷ d ∷ s) =
    let (part, parts) = split_lines (d ∷ s) in
    let (part', parts') = split_lines s in
    if c == 10
    then ([], part ∷ parts)
    else if c == 13 && d == 10
    then ([], part' ∷ parts')
    else (c ∷ part, parts)

abbrev pub lines_of : Str → List Str
lines_of s = let (part, parts) = split_lines s in part ∷ parts

abbrev pub lines_of_all : List Str → List Str
lines_of_all [] = []
lines_of_all (line ∷ rest) = lines_of line ++ lines_of_all rest

-- An empty last line is removed.
unfoldable pub pop_empty : List Str → List Str
pop_empty [] = []
pop_empty ([] ∷ []) = []
pop_empty ((c ∷ line) ∷ []) = (c ∷ line) ∷ []
pop_empty (line ∷ next ∷ rest) = line ∷ pop_empty (next ∷ rest)

unfoldable pub normalize_lines : LogPayload → List Str
unfolding pop_empty split_lines
normalize_lines (text s) = pop_empty (lines_of s)
normalize_lines (lines ls) = pop_empty (lines_of_all ls)

-- `xs.slice(-n)`.
abbrev pub slice_last {ℓ} : {A : Type ℓ} → ℕ → List A → List A
slice_last zero xs = xs
slice_last (suc n) xs = drop (length xs - suc n) xs

-- `bytes[i]`, with `undefined` as `none`.
unfoldable pub byte_at : List ℕ → ℕ → Option ℕ
byte_at [] i = none
byte_at (b ∷ bytes) zero = some b
byte_at (b ∷ bytes) (suc i) = byte_at bytes i

unfoldable pub continuation_byte : Option ℕ → Bool
continuation_byte none = false
continuation_byte (some b) = bit_and b 0xc0 == 0x80

-- The loop that looks for the first byte of a sequence, from the index before `n` downwards; `none`
-- where `lead` falls below 0.
unfoldable pub find_lead : List ℕ → ℕ → Option ℕ
unfolding byte_at continuation_byte
find_lead encoded zero = none
find_lead encoded (suc n) =
    let lower = find_lead encoded n in
    if continuation_byte (byte_at encoded n) then lower else some n

unfoldable pub expected_bytes : Option ℕ → ℕ
expected_bytes none = 1
expected_bytes (some b) =
    if leb 0xf0 b then 4 else if leb 0xe0 b then 3 else if leb 0xc0 b then 2 else 1

-- Where a text of bytes is cut.
unfoldable pub prefix_end : List ℕ → ℕ → ℕ
unfolding byte_at continuation_byte find_lead expected_bytes
prefix_end encoded end =
    if continuation_byte (byte_at encoded end)
    then elim (find_lead encoded end) [
      | none ↦ 0
      | some lead ↦ if ltb (end - lead) (expected_bytes (byte_at encoded lead)) then lead else end
    ]
    else end

unfoldable pub utf8_prefix : Str → ℕ → Str
unfolding text_encode text_decode prefix_end
utf8_prefix value maximum_bytes =
    let encoded = text_encode value in
    if leb (length encoded) maximum_bytes
    then value
    else text_decode (take (prefix_end encoded maximum_bytes) encoded)

-- `lines.join("\n")`.
abbrev pub join_lines : List Str → Str
join_lines [] = []
join_lines (line ∷ []) = line
join_lines (line ∷ next ∷ rest) = line ++ 10 ∷ join_lines (next ∷ rest)

pub record Bounded : Type 0 where
  pub body : Str
  pub line_count : ℕ
  pub byte_count : ℕ

unfoldable pub window_lines : LogPayload → ℕ → List Str
unfolding normalize_lines
window_lines payload tail = slice_last log_max_lines (slice_last tail (normalize_lines payload))

-- `bound_recent_log_window` with the greatest number of bytes as an argument.
unfoldable pub bound_window : ℕ → LogPayload → ℕ → Bounded
unfolding utf8_prefix window_lines split_on text_encode
bound_window maximum_bytes payload tail =
    let body = utf8_prefix (join_lines (window_lines payload tail)) maximum_bytes in
    record {
      body = body;
      line_count = (if truthy body then length (split 10 body) else 0);
      byte_count = length (text_encode body);
    }

unfoldable pub bound_recent_log_window : LogPayload → ℕ → Bounded
unfolding bound_window
bound_recent_log_window payload tail = bound_window log_max_bytes payload tail
