-- ===== src/Timeline/Opened.antt =====
-- Cursors that the store has signed are read back: packages/db/src/index.ts,
-- `encodeTimelineCursor` and `decodeTimelineCursor`.
use mathlib.Core.List.{reverse-append, reverse-reverse}
use tracegarden.Prelude.{
  ℕ, zero, suc, ◌-◌, ◌%◌, ◌≡◌, refl, sym, ap, ◌∙◌, subst, Bool, true, false, ◌&&◌, ◌||◌, Option,
  none, some, List, [], ◌∷◌, ◌++◌, map, reverse, arith, leb, ◌==◌, length, all, All, length-map,
  All-append, Str, ◌===◌, ===_refl, truthy,
}
use tracegarden.Prelude.Dates.{Dates}
use tracegarden.Prelude.Result.{ok}
use tracegarden.Prelude.Value.{prop}
use tracegarden.Timeline.Queries.{TimelineQuery, ListedEntry, text_or_null}
use tracegarden.Timeline.Cursors.{
  Platform, history, drop_pads, to_url, from_url, pads, alphabet_char, split_once,
  valid_timeline_cursor_shape, is_entry_id, is_member, not_blank, base64_url_encode,
  base64_url_decode, signed_timeline_cursor, history_payload, encode_timeline_cursor, decode_fields,
  decode_timeline_cursor, filter_key, open_cursor, decode_payload, decode_value,
}

-- A character of base64.
abbrev pub base64_char : ℕ → Bool
base64_char c =
    (leb b'A' c && leb c b'Z')
    || (leb b'a' c && leb c b'z')
    || (leb b'0' c && leb c b'9')
    || c == b'+'
    || c == b'/'

-- `btoa` writes characters of base64 and pads them to a multiple of four, and `atob` reads them back.
pub record HasBase64 (p : Platform) (bytes : List ℕ) : Type 0 where
  pub core : Str
  pub filled : truthy core ≡ true
  pub chars : All (λ c. base64_char c ≡ true) core
  pub padded : p.btoa bytes ≡ core ++ pads ((4 - length core % 4) % 4)
  pub back : p.atob (p.btoa bytes) ≡ some bytes

from_url-to_url : (c : ℕ) → base64_char c ≡ true → from_url (to_url c) ≡ c
from_url-to_url c h = ground (arith, h)

to_url_lem :
    (c : ℕ)
    → base64_char c ≡ true
    → (alphabet_char (to_url c) ≡ true)
      × ((to_url c == b'=') ≡ false)
      × ((to_url c == b'.') ≡ false)
to_url_lem c h = ground (arith, h)

map_back :
    (core : Str) → All (λ c. base64_char c ≡ true) core → map from_url (map to_url core) ≡ core
map_back [] h = refl
map_back (c ∷ core) h = rw (from_url-to_url c h.0, map_back core h.1) refl

map-pads : (core : Str) (n : ℕ) → map to_url (core ++ pads n) ≡ map to_url core ++ pads n
map-pads [] zero = refl
map-pads [] (suc n) = ap (λ r. b'=' ∷ r) (map-pads [] n)
map-pads (c ∷ core) n = ap (λ r. to_url c ∷ r) (map-pads core n)

pads_end : (n : ℕ) → pads n ++ b'=' ∷ [] ≡ b'=' ∷ pads n
pads_end zero = refl
pads_end (suc n) = ap (λ r. b'=' ∷ r) (pads_end n)

reverse-pads : (n : ℕ) → reverse (pads n) ≡ pads n
reverse-pads zero = refl
reverse-pads (suc n) =
    reverse-append (b'=' ∷ []) (pads n) ∙ (ap (λ r. r ++ b'=' ∷ []) (reverse-pads n) ∙ pads_end n)

drop_pads-pads : (n : ℕ) (s : Str) → drop_pads (pads n ++ s) ≡ drop_pads s
drop_pads-pads zero s = refl
drop_pads-pads (suc n) s = drop_pads-pads n s

abbrev IsUnpadded : Str → Type 0
IsUnpadded s = All (λ c. (c == b'=') ≡ false) s

drop_pads-IsUnpadded : (s : Str) → IsUnpadded s → drop_pads s ≡ s
drop_pads-IsUnpadded [] h = refl
drop_pads-IsUnpadded (c ∷ s) h = rw (h.0) refl

reverse-IsUnpadded : (s : Str) → IsUnpadded s → IsUnpadded (reverse s)
reverse-IsUnpadded [] h = tt
reverse-IsUnpadded (c ∷ s) h =
    subst IsUnpadded (sym (reverse-append (c ∷ []) s))
      (All-append _ (reverse s) (c ∷ []) (reverse-IsUnpadded s h.1) (h.0, tt))

map-IsUnpadded : (core : Str) → All (λ c. base64_char c ≡ true) core → IsUnpadded (map to_url core)
map-IsUnpadded [] h = tt
map-IsUnpadded (c ∷ core) h = ((to_url_lem c h.0).1, map-IsUnpadded core h.1)

all-alphabet :
    (core : Str) → All (λ c. base64_char c ≡ true) core → all alphabet_char (map to_url core) ≡ true
all-alphabet [] h = refl
all-alphabet (c ∷ core) h = rw ((to_url_lem c h.0).0) (all-alphabet core h.1)

split_once-append :
    (core b : Str)
    → All (λ c. base64_char c ≡ true) core
    → split_once (map to_url core ++ b'.' ∷ b) ≡ some (map to_url core, b)
split_once-append [] b h = refl
split_once-append (c ∷ core) b h = rw ((to_url_lem c h.0).2, split_once-append core b h.1) refl

strip : (s : Str) (n : ℕ) → IsUnpadded s → reverse (drop_pads (reverse (s ++ pads n))) ≡ s
strip s n h =
    ap (λ r. reverse (drop_pads r)) (reverse-append s (pads n))
    ∙ ap (λ r. reverse (drop_pads (r ++ reverse s))) (reverse-pads n)
    ∙ ap reverse (drop_pads-pads n (reverse s))
    ∙ ap reverse (drop_pads-IsUnpadded (reverse s) (reverse-IsUnpadded s h))
    ∙ reverse-reverse s

truthy-map : (core : Str) → truthy core ≡ true → truthy (map to_url core) ≡ true
truthy-map [] h = h
truthy-map (c ∷ core) h = refl

own_of : (member_id : Option Str) → is_member (text_or_null member_id) member_id ≡ true
own_of none = refl
own_of (some m) = ===_refl m

module _ (p : Platform) where
  base64_url_encode-core :
      (bytes : List ℕ) (b : HasBase64 p bytes) → base64_url_encode p bytes ≡ map to_url b.core
  unfolding base64_url_encode
  base64_url_encode-core bytes b =
      let n = (4 - length b.core % 4) % 4 in
      rw (b.padded, map-pads b.core n) (strip (map to_url b.core) n (map-IsUnpadded b.core b.chars))

  decode-core :
      (bytes : List ℕ) (b : HasBase64 p bytes)
      → base64_url_decode p (map to_url b.core) ≡ some bytes
  unfolding base64_url_decode
  decode-core bytes b =
      rw
        (
          base64_url_decode,
          length-map to_url b.core,
          map_back b.core b.chars,
          ← b.padded,
          b.back,
          base64_url_encode-core bytes b,
          ===_refl (map to_url b.core),
        )
        refl

  shape-core :
      (a b : Str)
      → All (λ c. base64_char c ≡ true) a
      → truthy a ≡ true
      → All (λ c. base64_char c ≡ true) b
      → truthy b ≡ true
      → leb (length (map to_url a ++ b'.' ∷ map to_url b)) 2048 ≡ true
      → valid_timeline_cursor_shape (map to_url a ++ b'.' ∷ map to_url b)
        ≡ some (map to_url a, map to_url b)
  unfolding valid_timeline_cursor_shape
  shape-core a b ha ta hb tb short =
      rw
        (
          short,
          split_once-append a (map to_url b) ha,
          truthy-map a ta,
          truthy-map b tb,
          all-alphabet a ha,
          all-alphabet b hb,
        )
        refl

  pub base64_url_decode-base64_url_encode :
      (bytes : List ℕ)
      → HasBase64 p bytes
      → base64_url_decode p (base64_url_encode p bytes) ≡ some bytes
  base64_url_decode-base64_url_encode bytes b =
      rw (base64_url_encode-core bytes b) (decode-core bytes b)

  shape-encoded :
      (bytes bytes' : List ℕ)
      → HasBase64 p bytes
      → HasBase64 p bytes'
      → leb (length (base64_url_encode p bytes ++ b'.' ∷ base64_url_encode p bytes')) 2048 ≡ true
      → valid_timeline_cursor_shape (base64_url_encode p bytes ++ b'.' ∷ base64_url_encode p bytes')
        ≡ some (base64_url_encode p bytes, base64_url_encode p bytes')
  shape-encoded bytes bytes' b b' short =
      let e = base64_url_encode-core bytes b in
      let e' = base64_url_encode-core bytes' b' in
      rw (e, e')
        (shape-core b.core b'.core b.chars b.filled b'.chars b'.filled (rw (e, e') at short))

  module _ (d : Dates) (secret : Str) (q : TimelineQuery) (member_id : Option Str) where
    abbrev payload_text : ListedEntry → Str
    payload_text x = p.stringify (history_payload p x.entry.occurred_at x.entry.id q member_id)

    -- What the platform does with the payload of the cursor of an entry, and how long the cursor is.
    pub record IsServed (x : ListedEntry) : Type 0 where
      pub payload : HasBase64 p (p.utf8 (payload_text x))
      pub signature : HasBase64 p (p.hmac secret (base64_url_encode p (p.utf8 (payload_text x))))
      pub decoded : p.text_decode (p.utf8 (payload_text x)) ≡ payload_text x
      pub parsed :
          p.json_parse (payload_text x)
          ≡ some (history_payload p x.entry.occurred_at x.entry.id q member_id)
      pub short : leb (length (encode_timeline_cursor p x q secret member_id)) 2048 ≡ true

    open_cursor-encoded :
        (bytes : List ℕ)
        → HasBase64 p bytes
        → HasBase64 p (p.hmac secret (base64_url_encode p bytes))
        → open_cursor p d
            (base64_url_encode p bytes)
            (base64_url_encode p (p.hmac secret (base64_url_encode p bytes)))
            (filter_key p q member_id)
            secret
            member_id
          ≡ decode_payload p d (some bytes) (filter_key p q member_id) member_id
    open_cursor-encoded bytes b b' =
        rw
          (
            base64_url_decode-base64_url_encode _ b',
            base64_url_decode-base64_url_encode bytes b,
            ===_refl (p.hmac secret (base64_url_encode p bytes)),
          )
          refl

    own : is_member (text_or_null member_id) member_id ≡ true
    own = own_of member_id

    decode_fields-history :
        (x : ListedEntry) (n : ℕ)
        → d.parse x.entry.occurred_at ≡ some n
        → is_entry_id x.entry.id ≡ true
        → not_blank member_id ≡ true
        → decode_value p d
            (some (history_payload p x.entry.occurred_at x.entry.id q member_id))
            (filter_key p q member_id)
            member_id
          ≡ some (history x.entry.occurred_at x.entry.id)
    unfolding decode_fields prop ◌===◌
    decode_fields-history x n h h' h'' =
        rw (own, ===_refl (filter_key p q member_id), h, h', h'') refl

    -- A cursor that the store has signed for an entry is read back as the position of the entry: if
    -- the platform encodes and parses the payload as documented, the cursor has at most 2,048 units,
    -- the entry is dated and its id is well formed, and the member's id is not blank.
    pub decode_timeline_cursor-encode_timeline_cursor :
        (x : ListedEntry) (n : ℕ)
        → IsServed x
        → d.parse x.entry.occurred_at ≡ some n
        → is_entry_id x.entry.id ≡ true
        → not_blank member_id ≡ true
        → decode_timeline_cursor p d
            (encode_timeline_cursor p x q secret member_id)
            q
            secret
            member_id
          ≡ ok (history x.entry.occurred_at x.entry.id)
    unfolding decode_timeline_cursor encode_timeline_cursor signed_timeline_cursor
    decode_timeline_cursor-encode_timeline_cursor x n s h h' h'' =
        rw
          (
            shape-encoded _ _ s.payload s.signature s.short,
            open_cursor-encoded _ s.payload s.signature,
            s.decoded,
            s.parsed,
            decode_fields-history x n h h' h'',
          )
          refl
