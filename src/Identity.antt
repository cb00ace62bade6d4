-- ===== src/Identity.antt =====
-- packages/identity/src/index.ts: roles and their capabilities, external identities, and the
-- claims of a Cloudflare Access token. `toLocaleLowerCase` goes by the tables of the engine, so it
-- is a parameter of `normalize_email`.
mod Access
pub mod Email
pub use Access.*
unfoldable pub use Access.{validate_claims}
use tracegarden.Prelude.{
  Bool, true, false, ◌&&◌, Option, none, some, List, [], ◌∷◌, ◌++◌, if◌then◌else◌, any, Str, js,
  ◌===◌, trim, truthy,
}
use tracegarden.Prelude.Result.{Result, ok, err}

pub data Capability : Type 0 where
  workspace_read membership_manage timeline_read experiment_write : Capability
  cluster_configure logs_read correlation_review retention_manage : Capability

pub data Role : Type 0 where
  owner operator viewer : Role

-- `isRole` on the text of a request, with the role that it names.
unfoldable pub role_of : Str → Option Role
role_of s =
    if s === js "owner"
    then some owner
    else if s === js "operator"
    then some operator
    else if s === js "viewer"
    then some viewer
    else none

abbrev pub is_owner : Role → Bool
is_owner owner = true
is_owner _ = false

-- `a === b` on roles.
abbrev pub same_role : Role → Role → Bool
same_role owner owner = true
same_role operator operator = true
same_role viewer viewer = true
same_role _ _ = false

-- `a === b` on capabilities.
abbrev pub same_capability : Capability → Capability → Bool
same_capability workspace_read workspace_read = true
same_capability membership_manage membership_manage = true
same_capability timeline_read timeline_read = true
same_capability experiment_write experiment_write = true
same_capability cluster_configure cluster_configure = true
same_capability logs_read logs_read = true
same_capability correlation_review correlation_review = true
same_capability retention_manage retention_manage = true
same_capability _ _ = false

unfoldable pub capabilities_for_role : Role → List Capability
capabilities_for_role owner =
    workspace_read ∷ membership_manage ∷ timeline_read ∷ experiment_write ∷ cluster_configure
    ∷ logs_read ∷ correlation_review ∷ retention_manage ∷ []
capabilities_for_role operator =
    workspace_read ∷ timeline_read ∷ experiment_write ∷ correlation_review ∷ []
capabilities_for_role viewer = workspace_read ∷ timeline_read ∷ []

-- `hasCapability`, over the capabilities that the member carries.
unfoldable pub has_capability : List Capability → Capability → Bool
has_capability held c = any (λ x. same_capability x c) held

pub data AccessError : Type 0 where
  missing_capability : Capability → AccessError

unfoldable pub require_capability : List Capability → Capability → Result AccessError (Unit {0})
unfolding has_capability
require_capability held c = if has_capability held c then ok tt else err (missing_capability c)

pub record ExternalIdentity : Type 0 where
  pub issuer : Str
  pub subject : Str
  pub email : Str
  pub display_name : Str

-- The two parts with a NUL between them.
unfoldable pub identity_key : Str → Str → Str
identity_key issuer subject = issuer ++ (0 ∷ subject)

unfoldable pub key_of : ExternalIdentity → Str
unfolding identity_key
key_of i = identity_key i.issuer i.subject

unfoldable pub validate_external_identity : ExternalIdentity → Bool
validate_external_identity i =
    truthy (trim i.issuer)
    && truthy (trim i.subject)
    && truthy (trim i.email)
    && truthy (trim i.display_name)

pub record MemberRecord : Type 0 where
  pub id : Str
  pub workspace_id : Str
  pub identity : ExternalIdentity
  pub role : Role
  pub capabilities : List Capability

abbrev pub workspace_id_single : Str
workspace_id_single = js "workspace-single"
