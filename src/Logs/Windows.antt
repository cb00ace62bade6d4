-- ===== src/Logs/Windows.antt =====
-- What a window holds: packages/logs/src/index.ts, `boundRecentLogWindow`.
use tracegarden.Prelude.{
  ℕ, ◌+◌, ◌≤◌, ◌<◌, ◌≡◌, refl, sym, ap, ◌∙◌, inl, inr, Bool, false, List, [], ◌∷◌, ◌++◌, arith, leb,
  ◌==◌, if◌then◌else◌, Bool-cases, length, All, Str, truthy, append-nil, append_assoc,
}
use tracegarden.Prelude.Value.{split_on, split}
use tracegarden.Logs.Utf8.{scalars, text_encode, without_mark, units_of, units, encode_scalar}
use tracegarden.Logs.Lines.{
  utf8_prefix, log_max_lines, LogPayload, window_lines, join_lines, bound_window,
}
use tracegarden.Logs.Decoded.{IsWellFormed}
use tracegarden.Logs.Cut.{fitting, left_over, fitting-left_over}
use tracegarden.Logs.Bounds.{IsUtf16, utf8_prefix-long, utf8_prefix-bytes}
use tracegarden.Logs.Feeds.{
  feeds, IsLine, IsUtf16Payload, length-split, feeds-cut, window_lines-IsLine, length-window_lines,
  join_lines-IsUtf16, feeds-join_lines,
}

utf8_prefix-feeds :
    (value : Str) (n : ℕ) → IsUtf16 value → feeds (utf8_prefix value n) ≤ feeds value
utf8_prefix-feeds value n h = elim (Bool-cases (leb (length (text_encode value)) n)) [
  | inl short ↦ unfold utf8_prefix in rw short (omega arith)
  | inr long ↦ rw (utf8_prefix-long value n h long) (feeds-cut n value)
]

utf8_prefix-nil : (n : ℕ) → utf8_prefix [] n ≡ []
unfolding utf8_prefix text_encode scalars
utf8_prefix-nil n = ground arith

line_count_of : Str → ℕ
unfolding split_on
line_count_of body = if truthy body then length (split 10 body) else 0

line_count_of-le :
    (n : ℕ) (ls : List Str)
    → All IsLine ls
    → line_count_of (utf8_prefix (join_lines ls) n) ≤ length ls
unfolding line_count_of
line_count_of-le n [] h = rw utf8_prefix-nil (omega arith)
line_count_of-le n (line ∷ ls) h =
    let text = join_lines (line ∷ ls) in
    let fewer = utf8_prefix-feeds text n (join_lines-IsUtf16 (line ∷ ls) h) in
    let size = length-split (utf8_prefix text n) in
    let whole = feeds-join_lines line ls h in
    elim (Bool-cases (truthy (utf8_prefix text n))) [
      | inl e ↦ rw e (omega arith)
      | inr e ↦ rw e (omega arith)
    ]

-- Whatever the payload, and for every limit of bytes: a window of at least one line has no more bytes
-- than the limit, no more lines than were asked for, and never more than 200; the counts that it
-- states are those of its text.
pub bound_window-IsBounded :
    (maximum_bytes : ℕ) (payload : LogPayload) (tail : ℕ)
    → IsUtf16Payload payload
    → 0 < tail
    → let window = bound_window maximum_bytes payload tail in
      (window.byte_count ≡ length (text_encode window.body))
      × (window.byte_count ≤ maximum_bytes)
      × (window.line_count ≤ tail)
      × (window.line_count ≤ log_max_lines)
      × (window.line_count ≡ (if truthy window.body then feeds window.body + 1 else 0))
unfolding bound_window
bound_window-IsBounded maximum_bytes payload tail h t =
    let ls = window_lines payload tail in
    let lines = window_lines-IsLine payload tail h in
    let few = length-window_lines payload tail t in
    let count = line_count_of-le maximum_bytes ls lines in
    (
      refl,
      utf8_prefix-bytes (join_lines ls) maximum_bytes (join_lines-IsUtf16 ls lines),
      unfold line_count_of in omega (arith, count),
      unfold line_count_of in omega (arith, count),
      ap (λ (n : ℕ). if truthy (utf8_prefix (join_lines ls) maximum_bytes) then n else 0)
          (length-split _),
    )

-- The text begins with a byte order mark.
abbrev pub starts_with_mark : List ℕ → Bool
starts_with_mark [] = false
starts_with_mark (c ∷ cs) = c == 0xfeff

without_mark-fitting :
    (n : ℕ) (cs : List ℕ) → starts_with_mark cs ≡ false → without_mark (fitting n cs) ≡ fitting n cs
without_mark-fitting n [] h = refl
without_mark-fitting n (c ∷ cs) h = elim (Bool-cases (leb (length (encode_scalar c)) n)) [
  | inl e ↦ rw (e, h) refl
  | inr e ↦ rw e refl
]

units_of-append : (xs ys : List ℕ) → units_of (xs ++ ys) ≡ units_of xs ++ units_of ys
units_of-append [] ys = refl
units_of-append (x ∷ xs) ys =
    ap (λ s. units x ++ s) (units_of-append xs ys)
    ∙ sym (append_assoc (units x) (units_of xs) (units_of ys))

utf8_prefix-beginning :
    (lines : Str) (n : ℕ)
    → IsUtf16 lines
    → IsWellFormed lines
    → starts_with_mark (scalars lines) ≡ false
    → (utf8_prefix lines n ≡ (
        if leb (length (text_encode lines)) n then lines else units_of (fitting n (scalars lines))))
      × (rest : Str) × (utf8_prefix lines n ++ rest ≡ lines)
utf8_prefix-beginning lines n valid formed plain =
    elim (Bool-cases (leb (length (text_encode lines)) n)) [
      | inl short ↦
          let whole : utf8_prefix lines n ≡ lines = unfold utf8_prefix in rw short refl in
          (rw short whole, [], rw whole (append-nil lines))
      | inr long ↦
          let cs = scalars lines in
          let cut =
            utf8_prefix-long lines n valid long ∙ ap units_of (without_mark-fitting n cs plain) in
          (
            rw long cut,
            units_of (left_over n cs),
            rw cut (
                sym (units_of-append (fitting n cs) (left_over n cs))
                ∙ ap units_of (fitting-left_over n cs)
                ∙ formed),
          )
    ]

-- The text of a window whose lines are well formed, with no byte order mark in front, is a beginning
-- of these lines: all of them if their bytes are within the limit, and otherwise the longest
-- beginning in whole characters that is.
pub bound_window-body :
    (maximum_bytes : ℕ) (payload : LogPayload) (tail : ℕ)
    → IsUtf16Payload payload
    → IsWellFormed (join_lines (window_lines payload tail))
    → starts_with_mark (scalars (join_lines (window_lines payload tail))) ≡ false
    → let lines = join_lines (window_lines payload tail) in
      let body = (bound_window maximum_bytes payload tail).body in
      (body ≡ (
        if leb (length (text_encode lines)) maximum_bytes
        then lines
        else units_of (fitting maximum_bytes (scalars lines))))
      × (rest : Str) × (body ++ rest ≡ lines)
bound_window-body maximum_bytes payload tail h formed plain =
    let ls = window_lines payload tail in
    unfold bound_window in
    utf8_prefix-beginning (join_lines ls) maximum_bytes
      (join_lines-IsUtf16 ls (window_lines-IsLine payload tail h)) formed plain
