-- ===== src/Admission/Managing.antt =====
-- The methods of `MemoryAdmissionStore` by which members are managed, and the record of log access.
use tracegarden.Prelude.{ℕ, not, ◌&&◌, Option, none, some, List, [], ◌∷◌, if◌then◌else◌, Str, js}
use tracegarden.Prelude.Dict.{get, set}
use tracegarden.Prelude.Dates.{Dates}
use tracegarden.Prelude.Result.{Result, ok, err}
use tracegarden.Identity.{
  Role, role_of, is_owner, same_role, capabilities_for_role, MemberRecord, workspace_id_single,
}
use tracegarden.Identity.Email.{normalize_invitation_email}
use tracegarden.Admission.Records.{
  InvitationRecord, Known, Store, Fresh, MembershipActor, AdmissionError, email, unknown_role,
  last_workspace_owner, invitation_created, invitation_revoked, member_role_changed, log_accessed,
  invitation_target, member_target, log_window_target, is_open,
}
use tracegarden.Admission.Steps.{
  role_text, assert_can_manage, refresh_sessions, audit, find_member, has_other_owner,
}

module _ (d : Dates) (lower : Str → Str) where
  abbrev pub Reply : Type 0 → Type 0
  Reply A = Result AdmissionError A × Store

  unfoldable pub create_invitation :
      Fresh → ℕ → Str → MembershipActor → Store → Reply InvitationRecord
  unfolding audit
  create_invitation fresh now address actor s = elim (assert_can_manage actor) [
    | err e ↦ (err e, s)
    | ok u ↦ elim (normalize_invitation_email lower address) [
      | err e ↦ (err (email e), s)
      | ok normalized ↦
          let invitation : InvitationRecord = record {
            id = fresh.id;
            workspace_id = workspace_id_single;
            email = normalized;
            created_at = d.iso now;
            revoked_at = none;
            accepted_at = none;
          } in
          (
            ok invitation,
            audit fresh.audit_id (d.iso now) invitation_created invitation_target fresh.id
                (some actor.id) ((js "email", normalized) ∷ [])
                (record s { invitations = set fresh.id invitation s.invitations }),
          )
    ]
  ]

  unfoldable pub revoke_invitation :
      Fresh → ℕ → Str → MembershipActor → Store → Reply (Option InvitationRecord)
  unfolding audit
  revoke_invitation fresh now id actor s = elim (assert_can_manage actor) [
    | err e ↦ (err e, s)
    | ok u ↦ elim (get id s.invitations) [
      | none ↦ (ok none, s)
      | some invitation ↦
          if is_open invitation
          then (
            ok (some (record invitation { revoked_at = some (d.iso now) })),
            audit fresh.audit_id (d.iso now) invitation_revoked invitation_target id (some actor.id)
                ((js "email", invitation.email) ∷ [])
                (record s {
                  invitations =
                      set id (record invitation { revoked_at = some (d.iso now) }) s.invitations;
                }),
          )
          else (ok none, s)
    ]
  ]

  -- The change itself, for a member that has another role than the new one.
  unfoldable pub change_role :
      Fresh → ℕ → Str → Role → MembershipActor → Str → Known → Store → Reply (Option MemberRecord)
  unfolding audit
  change_role fresh now member_id role actor key current s =
      let member = record current.member {
        role = role;
        capabilities = capabilities_for_role role;
      } in
      (
        ok (some member),
        audit fresh.audit_id (d.iso now) member_role_changed member_target member_id (some actor.id)
            ((js "fromRole", role_text current.member.role) ∷ (js "toRole", role_text role) ∷ [])
            (record s {
              identities =
                  set key (record { identity = current.identity; member = member }) s.identities;
              sessions = refresh_sessions member s.sessions;
            }),
      )

  unfoldable pub assign_member_role :
      Fresh → ℕ → Str → Str → MembershipActor → Store → Reply (Option MemberRecord)
  unfolding change_role
  assign_member_role fresh now member_id role_name actor s = elim (assert_can_manage actor) [
    | err e ↦ (err e, s)
    | ok u ↦ elim (role_of role_name) [
      | none ↦ (err unknown_role, s)
      | some role ↦ elim (find_member member_id s.identities) [
        | none ↦ (ok none, s)
        | some (key, current) ↦
            if same_role current.member.role role
            then (ok (some current.member), s)
            else if is_owner current.member.role
                && not (is_owner role)
                && not (has_other_owner member_id s.identities)
            then (err last_workspace_owner, s)
            else change_role fresh now member_id role actor key current s
      ]
    ]
  ]

  unfoldable pub record_log_access : Fresh → ℕ → Str → List (Str × Str) → Store → Store
  unfolding audit
  record_log_access fresh now actor_id metadata s =
      audit fresh.audit_id (d.iso now) log_accessed log_window_target fresh.id (some actor_id)
        metadata s
