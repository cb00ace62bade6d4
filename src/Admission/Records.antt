-- ===== src/Admission/Records.antt =====
-- The records of packages/identity/src/index.ts and the state of `MemoryAdmissionStore`.
use tracegarden.Prelude.{Bool, not, ◌&&◌, Option, List, [], is_some, Str}
use tracegarden.Prelude.Dict.{Dict}
use tracegarden.Identity.{Capability, AccessError, ExternalIdentity, MemberRecord}
use tracegarden.Identity.Email.{EmailError}

pub record AuthSession : Type 0 where
  pub token : Str
  pub expires_at : Str

pub record AuthenticatedSession : Type 0 where
  pub token : Str
  pub expires_at : Str
  pub member : MemberRecord

pub record InvitationRecord : Type 0 where
  pub id : Str
  pub workspace_id : Str
  pub email : Str
  pub created_at : Str
  pub revoked_at : Option Str
  pub accepted_at : Option Str

pub data AuditAction : Type 0 where
  invitation_created invitation_revoked member_admitted member_role_changed : AuditAction
  log_accessed : AuditAction

pub data AuditTargetType : Type 0 where
  invitation_target member_target log_window_target : AuditTargetType

pub record AuditRecord : Type 0 where
  pub id : Str
  pub workspace_id : Str
  pub actor_member_id : Option Str
  pub action : AuditAction
  pub target_type : AuditTargetType
  pub target_id : Str
  pub metadata : List (Str × Str)
  pub created_at : Str

-- A value of the map `identities`.
pub record Known : Type 0 where
  pub identity : ExternalIdentity
  pub member : MemberRecord

pub record Store : Type 0 where
  pub identities : Dict Known
  pub sessions : Dict AuthenticatedSession
  pub invitations : Dict InvitationRecord
  pub audits : List AuditRecord
  pub bootstrap_issuer : Str
  pub bootstrap_subject : Str

pub record MembershipActor : Type 0 where
  pub id : Str
  pub capabilities : List Capability

pub data AdmissionError : Type 0 where
  actor_required : AdmissionError
  access : AccessError → AdmissionError
  email : EmailError → AdmissionError
  unknown_role : AdmissionError
  last_workspace_owner : AdmissionError

pub data AdmissionResult : Type 0 where
  admitted : AuthenticatedSession → AdmissionResult
  admission_required : AdmissionResult
  invalid_identity : AdmissionResult

-- What `randomUUID` returns in the course of one call.
pub record Fresh : Type 0 where
  pub id : Str
  pub audit_id : Str
  pub token : Str

unfoldable pub new_store : Str → Str → Store
new_store issuer subject = record {
  identities = [];
  sessions = [];
  invitations = [];
  audits = [];
  bootstrap_issuer = issuer;
  bootstrap_subject = subject;
}

-- `!revokedAt && !acceptedAt`.
abbrev pub is_open : InvitationRecord → Bool
is_open i = not (is_some i.revoked_at) && not (is_some i.accepted_at)
