-- ===== src/Logs/Stream.antt =====
-- Reading a response that may be too long: packages/logs/src/index.ts, `readBoundedResponse`.
use tracegarden.Prelude.{
  ℕ, ◌+◌, ◌&&◌, ◌||◌, Option, none, some, List, [], ◌∷◌, ◌++◌, ltb, leb, ◌==◌, if◌then◌else◌, Str,
}
use tracegarden.Logs.Utf8.{text_decode}

-- The variables of the two loops: `accepted` counts in the bytes of the chunk, `taken`.
pub record Reading : Type 0 where
  pub taken : List ℕ
  pub total_bytes : ℕ
  pub line_count : ℕ

module _ (max_bytes max_lines : ℕ) where
  -- The inner loop, over the bytes of one chunk.
  unfoldable pub accept_bytes : List ℕ → Reading → Reading
  accept_bytes [] r = r
  accept_bytes (b ∷ bytes) r =
      let lines = if b == 10 then r.line_count + 1 else r.line_count in
      let r' : Reading = record {
        taken = r.taken ++ b ∷ [];
        total_bytes = r.total_bytes + 1;
        line_count = lines;
      } in
      let rest = accept_bytes bytes r' in
      if ltb r.total_bytes max_bytes then if leb max_lines lines then r' else rest else r

  -- The outer loop, over what the reader yields; `taken` collects the accepted parts of the chunks in
  -- their order.
  unfoldable pub read_chunks : List (List ℕ) → Reading → Reading
  unfolding accept_bytes
  read_chunks [] r = r
  read_chunks (chunk ∷ chunks) r =
      let r' = accept_bytes chunk r in
      let rest = read_chunks chunks r' in
      if ltb r.total_bytes max_bytes && ltb r.line_count max_lines
      then if leb max_lines r'.line_count || leb max_bytes r'.total_bytes then r' else rest
      else r

  unfoldable pub read_bytes : List (List ℕ) → List ℕ
  unfolding read_chunks
  read_bytes chunks =
      (read_chunks chunks (record { taken = []; total_bytes = 0; line_count = 0 })).taken

-- `none` where the response has no body.
unfoldable pub read_bounded_response : Option (List (List ℕ)) → Str
unfolding read_bytes text_decode
read_bounded_response none = []
read_bounded_response (some chunks) = text_decode (read_bytes 1048576 200 chunks)
