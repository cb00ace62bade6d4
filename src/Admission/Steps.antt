-- ===== src/Admission/Steps.antt =====
-- What several methods of `MemoryAdmissionStore` share: the check of the actor, the audit record, and
-- the members by their ids.
use tracegarden.Prelude.{
  Bool, not, ◌&&◌, Option, none, some, List, [], ◌∷◌, ◌++◌, if◌then◌else◌, any, Str, js, ◌===◌,
  trim, truthy,
}
use tracegarden.Prelude.Dict.{Dict, values}
use tracegarden.Prelude.Result.{Result, ok, err}
use tracegarden.Identity.{
  membership_manage, Role, is_owner, require_capability, MemberRecord, workspace_id_single,
}
use tracegarden.Admission.Records.{
  AuthenticatedSession, AuditAction, AuditTargetType, Known, Store, MembershipActor, AdmissionError,
  actor_required, access,
}

abbrev pub role_text : Role → Str
role_text Role.owner = js "owner"
role_text Role.operator = js "operator"
role_text Role.viewer = js "viewer"

unfoldable pub assert_can_manage : MembershipActor → Result AdmissionError (Unit {0})
unfolding require_capability
assert_can_manage actor =
    if truthy (trim actor.id)
    then elim (require_capability actor.capabilities membership_manage) [
      | ok u ↦ ok u
      | err e ↦ err (access e)
    ]
    else err actor_required

-- The loop that hands a changed member on to its sessions.
unfoldable pub refresh_sessions :
    MemberRecord → Dict AuthenticatedSession → Dict AuthenticatedSession
refresh_sessions m [] = []
refresh_sessions m ((token, s) ∷ rest) =
    (token, if s.member.id === m.id then record s { member = m } else s) ∷ refresh_sessions m rest

unfoldable pub audit :
    Str → Str → AuditAction → AuditTargetType → Str → Option Str → List (Str × Str) → Store → Store
audit id now action target_type target_id actor metadata s = record s {
  audits =
      s.audits
      ++ record {
        id = id;
        workspace_id = workspace_id_single;
        actor_member_id = actor;
        action = action;
        target_type = target_type;
        target_id = target_id;
        metadata = metadata;
        created_at = now;
      }
        ∷ [];
}

-- `identities` holds a member of that id: the entry that `find` returns.
unfoldable pub find_member : Str → Dict Known → Option (Str × Known)
find_member id [] = none
find_member id ((k, e) ∷ rest) =
    let later = find_member id rest in if e.member.id === id then some (k, e) else later

-- Another member than this one is an owner.
unfoldable pub has_other_owner : Str → Dict Known → Bool
has_other_owner id identities =
    any (λ e. not (e.member.id === id) && is_owner e.member.role) (values identities)
