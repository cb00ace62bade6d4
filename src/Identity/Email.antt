-- ===== src/Identity/Email.antt =====
-- `normalizeEmail` and `normalizeInvitationEmail`.
use tracegarden.Prelude.{
  ℕ, Bool, not, ◌&&◌, [], ◌∷◌, reverse, ◌==◌, if◌then◌else◌, drop, any, all, Str, is_space, trim,
  truthy,
}
use tracegarden.Prelude.Result.{Result, ok, err}

-- The text before the first `c`, and the text after it.
unfoldable pub before : ℕ → Str → Str
before c [] = []
before c (x ∷ s) = let rest = before c s in if x == c then [] else x ∷ rest

unfoldable pub after : ℕ → Str → Str
after c [] = []
after c (x ∷ s) = let rest = after c s in if x == c then s else rest

-- A text without its first and its last code unit.
abbrev pub inner : Str → Str
inner s = reverse (drop 1 (reverse (drop 1 s)))

-- The test /^[^\s@]+@[^\s@]+\.[^\s@]+$/: one `@` with a text before it, no white space, and behind it a
-- dot that is neither first nor last.
unfoldable pub is_email : Str → Bool
unfolding before after is_space
is_email s =
    truthy (before b'@' s)
    && all (λ c. not (is_space c)) s
    && all (λ c. not (c == b'@')) (after b'@' s)
    && any (λ c. c == b'.') (inner (after b'@' s))

pub data EmailError : Type 0 where
  invalid_email : EmailError

module _ (lower : Str → Str) where
  unfoldable pub normalize_email : Str → Str
  normalize_email s = lower (trim s)

  unfoldable pub normalize_invitation_email : Str → Result EmailError Str
  unfolding normalize_email
  normalize_invitation_email s =
      let normalized = normalize_email s in
      if is_email normalized then ok normalized else err invalid_email
