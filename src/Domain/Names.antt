-- ===== src/Domain/Names.antt =====
-- The identifiers of Kubernetes: `isValidClusterId` and `isValidNamespace` of
-- packages/cluster/src/index.ts, `kindPattern` and `isValidResourceName` of
-- packages/domain/src/index.ts. Each pattern is written as the test that it makes.
use tracegarden.Prelude.{
  ℕ, Bool, not, ◌&&◌, ◌||◌, [], ◌∷◌, reverse, leb, ◌==◌, length, all, Str, truthy,
}
use tracegarden.Prelude.Value.{is_digit, split}

unfoldable pub is_lower : ℕ → Bool
is_lower c = leb b'a' c && leb c b'z'

unfoldable pub is_upper : ℕ → Bool
is_upper c = leb b'A' c && leb c b'Z'

unfoldable pub is_alphanumeric : ℕ → Bool
unfolding is_lower is_upper is_digit
is_alphanumeric c = is_lower c || is_upper c || is_digit c

-- [a-z0-9]
unfoldable pub is_label_char : ℕ → Bool
unfolding is_lower is_digit
is_label_char c = is_lower c || is_digit c

abbrev pub head_or : ℕ → Str → ℕ
head_or d [] = d
head_or d (c ∷ s) = c

-- /^[a-z0-9](?:[a-z0-9-]*[a-z0-9])?$/: letters, digits and hyphens, with no hyphen at either end.
unfoldable pub is_dns_label : Str → Bool
unfolding is_label_char
is_dns_label s =
    truthy s
    && all (λ c. is_label_char c || c == b'-') s
    && is_label_char (head_or 0 s)
    && is_label_char (head_or 0 (reverse s))

unfoldable pub is_valid_namespace : Str → Bool
unfolding is_dns_label
is_valid_namespace s = leb (length s) 63 && is_dns_label s

-- /^[A-Za-z0-9][A-Za-z0-9._-]{0,127}$/
unfoldable pub is_valid_cluster_id : Str → Bool
unfolding is_alphanumeric
is_valid_cluster_id s =
    leb (length s) 128
    && is_alphanumeric (head_or 0 s)
    && all (λ c. is_alphanumeric c || c == b'.' || c == b'_' || c == b'-') s

-- /^[A-Za-z][A-Za-z0-9]*$/
unfoldable pub is_kind : Str → Bool
unfolding is_alphanumeric is_digit
is_kind s = is_alphanumeric (head_or 0 s) && not (is_digit (head_or 0 s)) && all is_alphanumeric s

-- The whole pattern asks of each part between dots that it be a label.
unfoldable pub is_valid_resource_name : Str → Bool
unfolding is_dns_label
is_valid_resource_name s =
    leb (length s) 253 && all (λ part. leb (length part) 63 && is_dns_label part) (split b'.' s)
