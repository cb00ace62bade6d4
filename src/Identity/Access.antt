-- ===== src/Identity/Access.antt =====
-- `validateCloudflareAccessClaims` and `configuredBootstrapIdentity`.
use tracegarden.Prelude.{
  ℕ, Bool, false, ◌&&◌, Option, none, some, List, ltb, leb, any, Str, ◌===◌, trim, truthy,
}

abbrev pub max_safe_integer : ℕ
max_safe_integer = 9007199254740991

-- `aud` is a text or an array of texts; the code reads both as an array. `exp` is a number: `none`
-- where it is no integer, and a negative one is below every clock.
pub record AccessClaims : Type 0 where
  pub iss : Str
  pub aud : List Str
  pub sub : Str
  pub exp : Option ℕ

abbrev pub expires_later : Option ℕ → ℕ → Bool
expires_later none now = false
expires_later (some e) now = leb e max_safe_integer && ltb now e

unfoldable pub validate_claims : AccessClaims → Str → Str → ℕ → Bool
validate_claims c issuer audience now =
    c.iss === issuer
    && any (λ a. a === audience) c.aud
    && truthy (trim c.sub)
    && expires_later c.exp now
