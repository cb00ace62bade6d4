-- ===== src/Logs/Feeds.antt =====
-- The line feeds of a window: packages/logs/src/index.ts, `normalizeLines` and
-- `boundRecentLogWindow`.
use tracegarden.Prelude.{
  ℕ, zero, suc, ◌+◌, ◌-◌, ◌*◌, ◌≤◌, ◌<◌, ◌≡◌, refl, ap, inl, inr, true, false, ◌&&◌, List, [], ◌∷◌,
  ◌++◌, arith, ltb, ◌==◌, if◌then◌else◌, Bool-cases, length, drop, All, length-drop, All-append,
  Str,
}
use tracegarden.Prelude.Value.{split_on, split}
use tracegarden.Logs.Utf8.{
  is_high, is_low, scalar_of, scalars, units, encode_scalar, without_mark, units_of,
}
use tracegarden.Logs.Lines.{
  LogPayload, text, lines, lines_of, lines_of_all, log_max_lines, window_lines, join_lines,
  normalize_lines, pop_empty, split_lines, slice_last,
}
use tracegarden.Logs.Cut.{fitting}
use tracegarden.Logs.Bounds.{IsUtf16}

abbrev pub feeds : List ℕ → ℕ
feeds [] = 0
feeds (c ∷ s) = (if c == 10 then 1 else 0) + feeds s

pub feeds-append : (xs ys : List ℕ) → feeds (xs ++ ys) ≡ feeds xs + feeds ys
feeds-append [] ys = omega arith
feeds-append (x ∷ xs) ys = ground (arith, feeds-append xs ys)

pub length-split : (s : Str) → length (split 10 s) ≡ feeds s + 1
unfolding split_on
length-split [] = omega arith
length-split (c ∷ s) = ground (arith, length-split s)

feeds-units_of : (cs : List ℕ) → feeds (units_of cs) ≡ feeds cs
unfolding units
feeds-units_of [] = refl
feeds-units_of (c ∷ cs) = elim (Bool-cases (ltb c 0x10000)) [
  | inl e ↦ rw e (ground (arith, feeds-units_of cs))
  | inr e ↦ rw e (ground (arith, feeds-units_of cs))
]

pair-feed :
    (u v : ℕ)
    → (is_high u && is_low v) ≡ true
    → ((u == 10) ≡ false)
      × ((v == 10) ≡ false)
      × (((0x10000 + (u - 0xd800) * 1024 + (v - 0xdc00)) == 10) ≡ false)
unfolding is_high is_low
pair-feed u v h = (ground arith, ground arith, ground arith)

scalar-feed : (u : ℕ) → (scalar_of u == 10) ≡ (u == 10)
unfolding is_high is_low
scalar-feed u = ground arith

feeds-scalars : (s : Str) → feeds (scalars s) ≡ feeds s
unfolding scalars
feeds-scalars [] = refl
feeds-scalars (u ∷ []) = rw scalar-feed refl
feeds-scalars (u ∷ v ∷ s) =
    let pair = feeds-scalars s in
    let single = feeds-scalars (v ∷ s) in
    elim (Bool-cases (is_high u && is_low v)) [
      | inl e ↦ let (fu, fv, fc) = pair-feed u v e in rw (e, fu, fv, fc) (omega (arith, pair))
      | inr e ↦ rw (e, scalar-feed) (ap (λ (n : ℕ). (if u == 10 then 1 else 0) + n) single)
    ]

feeds-fitting : (n : ℕ) (cs : List ℕ) → feeds (fitting n cs) ≤ feeds cs
feeds-fitting n [] = omega arith
feeds-fitting n (c ∷ cs) = ground (arith, feeds-fitting (n - length (encode_scalar c)) cs)

feeds-without_mark : (cs : List ℕ) → feeds (without_mark cs) ≤ feeds cs
feeds-without_mark [] = omega arith
feeds-without_mark (c ∷ cs) = ground arith

pub feeds-cut :
    (n : ℕ) (s : Str) → feeds (units_of (without_mark (fitting n (scalars s)))) ≤ feeds s
feeds-cut n s = omega (
  arith,
  feeds-units_of (without_mark (fitting n (scalars s))),
  feeds-without_mark (fitting n (scalars s)),
  feeds-fitting n (scalars s),
  feeds-scalars s,
)

-- A line of UTF-16 code units with no line feed in it.
abbrev pub IsLine : Str → Type 0
IsLine line = IsUtf16 line × (feeds line ≡ 0)

-- The payload is of UTF-16 code units.
abbrev pub IsUtf16Payload : LogPayload → Type 0
IsUtf16Payload (text s) = IsUtf16 s
IsUtf16Payload (lines ls) = All IsUtf16 ls

split_lines-IsLine : (s : Str) → IsUtf16 s → All IsLine (lines_of s)
unfolding split_lines
split_lines-IsLine [] h = ((tt, refl), tt)
split_lines-IsLine (c ∷ []) h = elim (Bool-cases (c == 10)) [
  | inl e ↦ rw e ((tt, refl), ((tt, refl), tt))
  | inr e ↦ rw e (((h.0, tt), rw e refl), tt)
]
split_lines-IsLine (c ∷ d ∷ s) h =
    let more = split_lines-IsLine (d ∷ s) h.1 in
    let later = split_lines-IsLine s h.1.1 in
    elim (Bool-cases (c == 10)) [
      | inl e ↦ rw e ((tt, refl), more)
      | inr e ↦ elim (Bool-cases (c == 13 && d == 10)) [
        | inl e' ↦ rw (e, e') ((tt, refl), later)
        | inr e' ↦ rw (e, e') (((h.0, more.0.0), rw e (omega (arith, more.0.1))), more.1)
      ]
    ]

lines_of_all-IsLine : (ls : List Str) → All IsUtf16 ls → All IsLine (lines_of_all ls)
lines_of_all-IsLine [] h = tt
lines_of_all-IsLine (line ∷ ls) h =
    All-append IsLine (lines_of line) (lines_of_all ls) (split_lines-IsLine line h.0)
      (lines_of_all-IsLine ls h.1)

pop_empty-IsLine : (ls : List Str) → All IsLine ls → All IsLine (pop_empty ls)
unfolding pop_empty
pop_empty-IsLine [] h = tt
pop_empty-IsLine ([] ∷ []) h = tt
pop_empty-IsLine ((c ∷ line) ∷ []) h = h
pop_empty-IsLine ([] ∷ next ∷ rest) h = (h.0, pop_empty-IsLine (next ∷ rest) h.1)
pop_empty-IsLine ((c ∷ line) ∷ next ∷ rest) h = (h.0, pop_empty-IsLine (next ∷ rest) h.1)

drop-IsLine : (n : ℕ) (ls : List Str) → All IsLine ls → All IsLine (drop n ls)
drop-IsLine zero ls h = h
drop-IsLine (suc n) [] h = tt
drop-IsLine (suc n) (line ∷ ls) h = drop-IsLine n ls h.1

slice_last-IsLine : (n : ℕ) (ls : List Str) → All IsLine ls → All IsLine (slice_last n ls)
slice_last-IsLine zero ls h = h
slice_last-IsLine (suc n) ls h = drop-IsLine (length ls - suc n) ls h

pub window_lines-IsLine :
    (payload : LogPayload) (tail : ℕ)
    → IsUtf16Payload payload
    → All IsLine (window_lines payload tail)
unfolding window_lines normalize_lines
window_lines-IsLine (text s) tail h =
    slice_last-IsLine log_max_lines _
      (slice_last-IsLine tail _ (pop_empty-IsLine (lines_of s) (split_lines-IsLine s h)))
window_lines-IsLine (lines ls) tail h =
    slice_last-IsLine log_max_lines _
      (slice_last-IsLine tail _ (pop_empty-IsLine (lines_of_all ls) (lines_of_all-IsLine ls h)))

length-slice_last : (n : ℕ) (ls : List Str) → 0 < n → length (slice_last n ls) ≤ n
length-slice_last zero ls h = absurd (omega arith)
length-slice_last (suc n) ls h = omega (arith, length-drop (length ls - suc n) ls)

pub length-window_lines :
    (payload : LogPayload) (tail : ℕ)
    → 0 < tail
    → (length (window_lines payload tail) ≤ tail) × (length (window_lines payload tail) ≤ 200)
unfolding window_lines
length-window_lines payload tail h =
    let ls = slice_last tail (normalize_lines payload) in
    let few = length-slice_last tail (normalize_lines payload) h in
    let size = length-drop (length ls - 200) ls in
    (omega arith, length-slice_last 200 ls (omega arith))

pub join_lines-IsUtf16 : (ls : List Str) → All IsLine ls → IsUtf16 (join_lines ls)
join_lines-IsUtf16 [] h = tt
join_lines-IsUtf16 (line ∷ []) h = h.0.0
join_lines-IsUtf16 (line ∷ next ∷ rest) h =
    All-append (λ u. u < 0x10000) line (10 ∷ join_lines (next ∷ rest)) h.0.0
      (omega arith, join_lines-IsUtf16 (next ∷ rest) h.1)

pub feeds-join_lines :
    (line : Str) (ls : List Str)
    → All IsLine (line ∷ ls)
    → feeds (join_lines (line ∷ ls)) ≡ length ls
feeds-join_lines line [] h = h.0.1
feeds-join_lines line (next ∷ rest) h = omega (
  arith,
  feeds-append line (10 ∷ join_lines (next ∷ rest)),
  feeds-join_lines next rest h.1,
  h.0.1,
)
