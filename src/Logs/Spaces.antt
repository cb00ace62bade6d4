-- ===== src/Logs/Spaces.antt =====
-- Texts from which `trim` removes nothing: the names in a request of packages/logs/src/index.ts.
use mathlib.Core.List.{reverse-cons, reverse-reverse}
use tracegarden.Prelude.{
  ℕ, ◌≡◌, refl, ◌∙◌, inl, inr, Bool, true, false, not, ◌&&◌, ◌||◌, List, [], ◌∷◌, ◌++◌, reverse,
  arith, leb, ◌==◌, ==_iff, Bool-cases, length, all, Str, is_space, trim_start, trim,
}
use tracegarden.Prelude.Value.{split, split_on, is_digit}
use tracegarden.Domain.Names.{
  is_lower, is_upper, is_alphanumeric, is_label_char, is_dns_label, is_valid_cluster_id,
}
use tracegarden.Logs.Window.{is_dns_subdomain}

-- What white space is not removed from.
no_space : Str → Bool
no_space = all (λ c. not (is_space c))

trim_start-no_space : (s : Str) → no_space s ≡ true → trim_start s ≡ s
unfolding no_space trim_start
trim_start-no_space [] h = refl
trim_start-no_space (c ∷ s) h = ground (arith, h)

all-append : (p : ℕ → Bool) (xs ys : Str) → all p (xs ++ ys) ≡ (all p xs && all p ys)
all-append p [] ys = refl
all-append p (x ∷ xs) ys = ground (arith, all-append p xs ys)

no_space-reverse : (s : Str) → no_space (reverse s) ≡ no_space s
unfolding no_space
no_space-reverse [] = refl
no_space-reverse (c ∷ s) = rw (reverse-cons, all-append) (ground (arith, no_space-reverse s))

trim-no_space : (s : Str) → no_space s ≡ true → trim s ≡ s
unfolding trim
trim-no_space s h =
    rw (trim_start-no_space s h)
      (rw (trim_start-no_space (reverse s) (no_space-reverse s ∙ h)) (reverse-reverse s))

all-weaken {ℓ} :
    {A : Type ℓ} (p q : A → Bool) (s : List A)
    → ((c : A) → p c ≡ true → q c ≡ true)
    → all p s ≡ true
    → all q s ≡ true
all-weaken p q [] w h = refl
all-weaken p q (c ∷ s) w h = ground (arith, w c, all-weaken p q s w)

label_char-no_space : (c : ℕ) → (is_label_char c || c == b'-') ≡ true → not (is_space c) ≡ true
unfolding is_label_char is_lower is_digit is_space
label_char-no_space c h = ground arith

id_char-no_space :
    (c : ℕ)
    → (is_alphanumeric c || c == b'.' || c == b'_' || c == b'-') ≡ true
    → not (is_space c) ≡ true
unfolding is_alphanumeric is_lower is_upper is_digit is_space
id_char-no_space c h = ground arith

dns_label-no_space : (s : Str) → is_dns_label s ≡ true → no_space s ≡ true
unfolding is_dns_label no_space
dns_label-no_space s h =
    all-weaken (λ c. is_label_char c || c == b'-') (λ c. not (is_space c)) s label_char-no_space
      (ground arith)

cluster_id-no_space : (s : Str) → is_valid_cluster_id s ≡ true → no_space s ≡ true
unfolding is_valid_cluster_id no_space
cluster_id-no_space s h =
    all-weaken (λ c. is_alphanumeric c || c == b'.' || c == b'_' || c == b'-')
      (λ c. not (is_space c)) s id_char-no_space (ground arith)

dot-no_space : not (is_space b'.') ≡ true
unfolding is_space
dot-no_space = refl

regroup : (a b c d : Bool) → ((a && b) && c) ≡ true → ((b && c) ≡ true → d ≡ true) → (a && d) ≡ true
regroup true true true d h f = f refl
regroup true true false d h f = cc
regroup true false c d h f = cc
regroup false b c d h f = cc

split-no_space : (s : Str) → all no_space (split b'.' s) ≡ true → no_space s ≡ true
unfolding no_space split_on
split-no_space [] h = refl
split-no_space (c ∷ s) h = elim (Bool-cases (c == b'.')) [
  | inl e ↦
      let h' : all no_space (split b'.' s) ≡ true = rw e at h in
      rw ((==_iff c b'.').0 e) (rw (dot-no_space, split-no_space s h') refl)
  | inr e ↦
      regroup (not (is_space c)) (no_space (split_on b'.' s).0) _ (no_space s) (rw e at h)
        (split-no_space s)
]

part-no_space :
    (part : Str) → (leb (length part) 63 && is_dns_label part) ≡ true → no_space part ≡ true
part-no_space part h = dns_label-no_space part (ground arith)

subdomain-no_space : (s : Str) → is_dns_subdomain s ≡ true → no_space s ≡ true
unfolding is_dns_subdomain
subdomain-no_space s h = split-no_space s (
    all-weaken (λ part. leb (length part) 63 && is_dns_label part) no_space (split b'.' s)
      part-no_space (ground arith))

-- A text in which each unit is allowed by one of the patterns is not changed by `trim`.
pub trim-dns_label : (s : Str) → is_dns_label s ≡ true → trim s ≡ s
trim-dns_label s h = trim-no_space s (dns_label-no_space s h)

pub trim-cluster_id : (s : Str) → is_valid_cluster_id s ≡ true → trim s ≡ s
trim-cluster_id s h = trim-no_space s (cluster_id-no_space s h)

pub trim-subdomain : (s : Str) → is_dns_subdomain s ≡ true → trim s ≡ s
trim-subdomain s h = trim-no_space s (subdomain-no_space s h)
