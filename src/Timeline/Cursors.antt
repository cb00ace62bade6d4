-- ===== src/Timeline/Cursors.antt =====
-- The signed cursors of the timeline: packages/db/src/index.ts, `base64UrlEncode` to
-- `decodeTimelineCursor`. What the platform does is a parameter.
use mathlib.Core.Option
use tracegarden.Prelude.{
  ℕ, zero, suc, ◌-◌, ◌%◌, Bool, true, false, ◌&&◌, ◌||◌, Option, none, some, List, [], ◌∷◌, ◌++◌,
  map, reverse, leb, ◌==◌, if◌then◌else◌, is_some, length, all, Str, js, ◌===◌, trim, truthy,
}
use tracegarden.Prelude.Dates.{Dates}
use tracegarden.Prelude.Result.{Result, ok, err}
use tracegarden.Prelude.Value.{
  Value, null, whole, string, object, Fields, end, field, prop, is_digit,
}
use tracegarden.Delivery.Previews.{number_text}
use tracegarden.Timeline.Queries.{TimelineQuery, timeline_filters, text_or_null, ListedEntry}

-- `btoa`, `atob`, `TextEncoder`, `TextDecoder`, the HMAC of a text with a secret, and `JSON`. Functions
-- that can throw return `none` then.
pub record Platform : Type 0 where
  pub btoa : List ℕ → Str
  pub atob : Str → Option (List ℕ)
  pub utf8 : Str → List ℕ
  pub text_decode : List ℕ → Str
  pub hmac : Str → Str → List ℕ
  pub stringify : Value → Str
  pub json_parse : Str → Option Value

pub data QueryError : Type 0 where
  invalid_cursor member_required more_pages : QueryError

pub data DecodedCursor : Type 0 where
  history : Str → Str → DecodedCursor
  live : Str → DecodedCursor

-- `text.replace(/=+$/, "")`, on the text turned around.
abbrev pub drop_pads : Str → Str
drop_pads [] = []
drop_pads (c ∷ s) = if c == b'=' then drop_pads s else c ∷ s

abbrev pub to_url : ℕ → ℕ
to_url c = if c == b'+' then b'-' else if c == b'/' then b'_' else c

abbrev pub from_url : ℕ → ℕ
from_url c = if c == b'-' then b'+' else if c == b'_' then b'/' else c

-- `"=".repeat(n)`.
abbrev pub pads : ℕ → Str
pads zero = []
pads (suc n) = b'=' ∷ pads n

abbrev pub alphabet_char : ℕ → Bool
alphabet_char c =
    (leb b'A' c && leb c b'Z')
    || (leb b'a' c && leb c b'z')
    || (leb b'0' c && leb c b'9')
    || c == b'_'
    || c == b'-'

-- What stands before the first separator, and what behind it.
abbrev pub split_once : Str → Option (Str × Str)
split_once [] = none
split_once (c ∷ s) =
    let rest = split_once s in
    if c == b'.' then some ([], s) else Option.map (λ (a, b). (c ∷ a, b)) rest

-- `validTimelineCursorShape`, with the payload and the signature.
unfoldable pub valid_timeline_cursor_shape : Str → Option (Str × Str)
valid_timeline_cursor_shape value =
    if leb (length value) 2048
    then elim (split_once value) [
      | none ↦ none
      | some (payload, signature) ↦
          if truthy payload
            && truthy signature
            && all alphabet_char payload
            && all alphabet_char signature
          then some (payload, signature)
          else none
    ]
    else none

-- /^[1-9]\d*$/
abbrev is_sequence : Str → Bool
is_sequence [] = false
is_sequence (c ∷ s) = leb b'1' c && leb c b'9' && all is_digit s

-- /^[A-Za-z0-9][A-Za-z0-9._:-]{0,127}$/
abbrev id_char : ℕ → Bool
id_char c = (leb b'A' c && leb c b'Z') || (leb b'a' c && leb c b'z') || (leb b'0' c && leb c b'9')

unfoldable pub is_entry_id : Str → Bool
is_entry_id [] = false
is_entry_id (c ∷ s) =
    id_char c
    && leb (length s) 127
    && all (λ x. id_char x || x == b'.' || x == b'_' || x == b':' || x == b'-') s

abbrev pub sequence_text : ℕ → Str
sequence_text n = if n == 0 then js "0" else number_text n

-- `record.memberId === (memberId ?? null)`.
abbrev pub is_member : Value → Option Str → Bool
is_member null none = true
is_member (string s) (some m) = s === m
is_member _ _ = false

abbrev pub is_version : Value → ℕ → Bool
is_version (whole n) m = n == m
is_version _ m = false

abbrev pub not_blank : Option Str → Bool
not_blank none = true
not_blank (some m) = truthy (trim m)

abbrev pub equals : Value → Str → Bool
equals (string s) t = s === t
equals _ t = false

module _ (p : Platform) where
  unfoldable pub base64_url_encode : List ℕ → Str
  base64_url_encode bytes = reverse (drop_pads (reverse (map to_url (p.btoa bytes))))

  unfoldable pub base64_url_decode : Str → Option (List ℕ)
  unfolding base64_url_encode ◌===◌
  base64_url_decode value =
      elim (p.atob (map from_url value ++ pads ((4 - length value % 4) % 4))) [
        | none ↦ none
        | some decoded ↦ if base64_url_encode decoded === value then some decoded else none
      ]

  abbrev pub filter_key : TimelineQuery → Option Str → Str
  filter_key q member_id = p.stringify (timeline_filters q member_id)

  unfoldable pub signed_timeline_cursor : Value → Str → Str
  unfolding base64_url_encode
  signed_timeline_cursor payload secret =
      let encoded = base64_url_encode (p.utf8 (p.stringify payload)) in
      encoded ++ b'.' ∷ base64_url_encode (p.hmac secret encoded)

  -- The payload of `encodeTimelineCursor`.
  abbrev pub history_payload : Str → Str → TimelineQuery → Option Str → Value
  history_payload occurred_at id q member_id = object (
      field (js "version") (whole 3) (
        field (js "occurredAt") (string occurred_at) (
          field (js "entryId") (string id) (
            field (js "memberId") (text_or_null member_id)
              (field (js "filters") (string (filter_key q member_id)) end)))))

  unfoldable pub encode_timeline_cursor : ListedEntry → TimelineQuery → Str → Option Str → Str
  unfolding signed_timeline_cursor timeline_filters
  encode_timeline_cursor e q secret member_id =
      signed_timeline_cursor (history_payload e.entry.occurred_at e.entry.id q member_id) secret

  unfoldable pub encode_live_timeline_cursor : ℕ → TimelineQuery → Str → Option Str → Str
  unfolding signed_timeline_cursor timeline_filters
  encode_live_timeline_cursor sequence q secret member_id =
      signed_timeline_cursor
        (object (
          field (js "version") (whole 2) (
            field (js "sequence") (string (sequence_text sequence)) (
              field (js "memberId") (text_or_null member_id)
                (field (js "filters") (string (filter_key q member_id)) end)))))
        secret

  module _ (d : Dates) where
    abbrev decode_position : Value → Value → Option DecodedCursor
    decode_position (string occurred_at) (string id) =
        if is_some (d.parse occurred_at) && is_entry_id id
        then some (history occurred_at id)
        else none
    decode_position _ _ = none

    abbrev decode_sequence : Value → Option DecodedCursor
    decode_sequence (string sequence) = if is_sequence sequence then some (live sequence) else none
    decode_sequence _ = none

    -- The fields of a payload whose signature is right. A payload of version 2 whose sequence is no
    -- number fails the test of version 3.
    unfoldable pub decode_fields : Fields → Str → Option Str → Option DecodedCursor
    unfolding prop is_entry_id
    decode_fields fields key member_id =
        if is_member (prop (js "memberId") fields) member_id
          && equals (prop (js "filters") fields) key
          && not_blank member_id
        then if is_version (prop (js "version") fields) 2
          then decode_sequence (prop (js "sequence") fields)
          else if is_version (prop (js "version") fields) 3
          then decode_position (prop (js "occurredAt") fields) (prop (js "entryId") fields)
          else none
        else none

    abbrev pub decode_value : Option Value → Str → Option Str → Option DecodedCursor
    decode_value (some (object fields)) key member_id = decode_fields fields key member_id
    decode_value _ key member_id = none

    -- The text of a payload that has been decoded.
    abbrev pub decode_payload : Option (List ℕ) → Str → Option Str → Option DecodedCursor
    decode_payload none key member_id = none
    decode_payload (some bytes) key member_id =
        decode_value (p.json_parse (p.text_decode bytes)) key member_id

    abbrev pub is_signature : Option (List ℕ) → List ℕ → Bool
    is_signature none expected = false
    is_signature (some actual) expected = actual === expected

    abbrev pub open_cursor : Str → Str → Str → Str → Option Str → Option DecodedCursor
    open_cursor payload signature key secret member_id =
        if is_signature (base64_url_decode signature) (p.hmac secret payload)
        then decode_payload (base64_url_decode payload) key member_id
        else none

    abbrev pub or_invalid : Option DecodedCursor → Result QueryError DecodedCursor
    or_invalid none = err invalid_cursor
    or_invalid (some c) = ok c

    unfoldable pub decode_timeline_cursor :
        Str → TimelineQuery → Str → Option Str → Result QueryError DecodedCursor
    unfolding valid_timeline_cursor_shape base64_url_decode decode_fields timeline_filters
    decode_timeline_cursor value q secret member_id =
        or_invalid (elim (valid_timeline_cursor_shape value) [
          | none ↦ none
          | some (payload, signature) ↦
              open_cursor payload signature (filter_key q member_id) secret member_id
        ])
