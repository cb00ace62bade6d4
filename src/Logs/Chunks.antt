-- ===== src/Logs/Chunks.antt =====
-- How a response is cut into chunks does not matter: packages/logs/src/index.ts,
-- `readBoundedResponse`.
use tracegarden.Prelude.{
  ℕ, zero, suc, ◌+◌, ◌-◌, ◌<◌, ◌≡◌, refl, sym, ap, ◌∙◌, inl, inr, true, false, ◌&&◌, ◌||◌, List, [],
  ◌∷◌, ◌++◌, arith, ltb, leb, ◌==◌, if◌then◌else◌, Bool-cases, append-nil, append_assoc,
}
use tracegarden.Logs.Stream.{Reading, accept_bytes, read_chunks, read_bytes}

-- The longest beginning with at most so many bytes that ends with its last allowed line.
abbrev pub bounded_prefix : ℕ → ℕ → List ℕ → List ℕ
bounded_prefix zero lines bytes = []
bounded_prefix (suc n) zero bytes = []
bounded_prefix (suc n) (suc lines) [] = []
bounded_prefix (suc n) (suc lines) (b ∷ bytes) =
    b ∷ bounded_prefix n (if b == 10 then lines else suc lines) bytes

abbrev pub concatenated : List (List ℕ) → List ℕ
concatenated [] = []
concatenated (chunk ∷ chunks) = chunk ++ concatenated chunks

bounded_prefix-no_bytes : (lines n : ℕ) (bytes : List ℕ) → n ≡ 0 → bounded_prefix n lines bytes ≡ []
bounded_prefix-no_bytes lines n bytes e = rw e refl

bounded_prefix-no_lines :
    (n lines : ℕ) (bytes : List ℕ) → lines ≡ 0 → bounded_prefix n lines bytes ≡ []
bounded_prefix-no_lines zero lines bytes e = refl
bounded_prefix-no_lines (suc n) lines bytes e = rw e refl

bounded_prefix-nil : (n lines : ℕ) → bounded_prefix n lines [] ≡ []
bounded_prefix-nil zero lines = refl
bounded_prefix-nil (suc n) zero = refl
bounded_prefix-nil (suc n) (suc lines) = refl

bounded_prefix-step :
    (n lines b : ℕ) (bytes : List ℕ)
    → 0 < n
    → 0 < lines
    → bounded_prefix n lines (b ∷ bytes)
      ≡ b ∷ bounded_prefix (n - 1) (if b == 10 then lines - 1 else lines) bytes
bounded_prefix-step zero lines b bytes h h' = absurd (omega arith)
bounded_prefix-step (suc n) zero b bytes h h' = absurd (omega arith)
bounded_prefix-step (suc n) (suc lines) b bytes h h' =
    let e : suc n - 1 ≡ n = omega arith in
    let e' : suc lines - 1 ≡ lines = omega arith in rw (e, e') refl

module _ (max_bytes max_lines : ℕ) where
  abbrev left : Reading → List ℕ → List ℕ
  left r bytes = bounded_prefix (max_bytes - r.total_bytes) (max_lines - r.line_count) bytes

  abbrev after : ℕ → Reading → Reading
  after b r = record {
    taken = r.taken ++ b ∷ [];
    total_bytes = r.total_bytes + 1;
    line_count = (if b == 10 then r.line_count + 1 else r.line_count);
  }

  left-after :
      (b : ℕ) (r : Reading) (bytes : List ℕ)
      → ltb r.total_bytes max_bytes ≡ true
      → r.line_count < max_lines
      → r.taken ++ left r (b ∷ bytes) ≡ (after b r).taken ++ left (after b r) bytes
  left-after b r bytes room h =
      let fewer : max_bytes - r.total_bytes - 1 ≡ max_bytes - (r.total_bytes + 1) = omega arith in
      let lines : (if b == 10 then max_lines - r.line_count - 1 else max_lines - r.line_count)
          ≡ max_lines - (after b r).line_count =
        ground arith in
      rw
        (
          bounded_prefix-step (max_bytes - r.total_bytes) (max_lines - r.line_count) b bytes
              (ground arith) (omega arith),
          fewer,
          lines,
        )
        (sym (append_assoc r.taken (b ∷ []) _))

  full-left :
      (r : Reading) (bytes : List ℕ)
      → (ltb r.total_bytes max_bytes && ltb r.line_count max_lines) ≡ false
      → left r bytes ≡ []
  full-left r bytes full = elim (Bool-cases (ltb r.total_bytes max_bytes)) [
    | inr e ↦ bounded_prefix-no_bytes (max_lines - r.line_count) _ bytes (ground arith)
    | inl e ↦ bounded_prefix-no_lines (max_bytes - r.total_bytes) _ bytes (ground arith)
  ]

  -- What is taken, followed by what may still be taken, stays the same.
  accept_bytes-left :
      (chunk rest : List ℕ) (r : Reading)
      → r.line_count < max_lines
      → (accept_bytes max_bytes max_lines chunk r).taken
          ++ left (accept_bytes max_bytes max_lines chunk r) rest
        ≡ r.taken ++ left r (chunk ++ rest)
  unfolding accept_bytes
  accept_bytes-left [] rest r h = refl
  accept_bytes-left (b ∷ chunk) rest r h = elim (Bool-cases (ltb r.total_bytes max_bytes)) [
    | inr full ↦ rw full (
        rw (full-left r rest (ground arith), full-left r (b ∷ (chunk ++ rest)) (ground arith)) refl)
    | inl room ↦ elim (Bool-cases (leb max_lines (after b r).line_count)) [
      | inl last ↦
          rw (room, last)
            (rw (full-left (after b r) rest (ground arith)) (
              sym (
                left-after b r (chunk ++ rest) room h
                ∙ rw (full-left (after b r) (chunk ++ rest) (ground arith)) refl)))
      | inr more ↦
          rw (room, more)
            (accept_bytes-left chunk rest (after b r) (ground arith)
              ∙ sym (left-after b r (chunk ++ rest) room h))
    ]
  ]

  read_chunks-left :
      (chunks : List (List ℕ)) (r : Reading)
      → (read_chunks max_bytes max_lines chunks r).taken ≡ r.taken ++ left r (concatenated chunks)
  unfolding read_chunks
  read_chunks-left [] r = rw bounded_prefix-nil (sym (append-nil r.taken))
  read_chunks-left (chunk ∷ chunks) r =
      let r' = accept_bytes max_bytes max_lines chunk r in
      elim (Bool-cases (ltb r.total_bytes max_bytes && ltb r.line_count max_lines)) [
        | inr full ↦ rw (full, full-left r _ full) (sym (append-nil r.taken))
        | inl room ↦
            let kept = accept_bytes-left chunk (concatenated chunks) r (ground arith) in
            elim (Bool-cases (leb max_lines r'.line_count || leb max_bytes r'.total_bytes)) [
              | inl last ↦
                  rw (room, last)
                    (sym (append-nil r'.taken)
                      ∙ ap (λ bytes. r'.taken ++ bytes)
                          (sym (full-left r' (concatenated chunks) (ground arith)))
                      ∙ kept)
              | inr more ↦ rw (room, more) (read_chunks-left chunks r' ∙ kept)
            ]
      ]

  -- However the bytes of a response are cut into chunks, exactly the longest beginning of them is
  -- read that has at most the allowed number of bytes and goes no further than the last allowed line
  -- feed.
  pub read_bytes-bounded_prefix :
      (chunks : List (List ℕ))
      → read_bytes max_bytes max_lines chunks
        ≡ bounded_prefix max_bytes max_lines (concatenated chunks)
  unfolding read_bytes
  read_bytes-bounded_prefix chunks =
      let e : max_bytes - 0 ≡ max_bytes = omega arith in
      let e' : max_lines - 0 ≡ max_lines = omega arith in
      read_chunks-left chunks (record { taken = []; total_bytes = 0; line_count = 0 })
      ∙ rw (e, e') refl
