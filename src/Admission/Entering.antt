-- ===== src/Admission/Entering.antt =====
-- `admit` and `getSession` of `MemoryAdmissionStore`.
use tracegarden.Prelude.{
  ℕ, ◌+◌, Bool, false, ◌&&◌, Option, none, some, List, [], ◌∷◌, leb, ◌==◌, if◌then◌else◌, length,
  find, Str, js, ◌===◌,
}
use tracegarden.Prelude.Dict.{Dict, get, set, remove, values}
use tracegarden.Prelude.Dates.{Dates}
use tracegarden.Identity.{
  Role, owner, viewer, capabilities_for_role, ExternalIdentity, key_of, identity_key,
  validate_external_identity, MemberRecord, workspace_id_single,
}
use tracegarden.Identity.Email.{normalize_email}
use tracegarden.Admission.Records.{
  AuthSession, AuthenticatedSession, InvitationRecord, Known, Store, Fresh, AdmissionResult,
  admitted, admission_required, invalid_identity, member_admitted, member_target, is_open,
}
use tracegarden.Admission.Steps.{role_text, refresh_sessions, audit}

module _ (d : Dates) (lower : Str → Str) where
  unfoldable pub session_for_member :
      Fresh → ℕ → MemberRecord → Option AuthSession → AuthenticatedSession
  session_for_member fresh now member none = record {
    token = fresh.token;
    expires_at = d.iso (now + 28800000);
    member = member;
  }
  session_for_member fresh now member (some auth) = record {
    token = auth.token;
    expires_at = auth.expires_at;
    member = member;
  }

  abbrev put_session : AuthenticatedSession → Store → AdmissionResult × Store
  put_session session s =
      (admitted session, record s { sessions = set session.token session s.sessions })

  -- An identity that is known comes back, perhaps with another email or name.
  unfoldable pub readmit :
      Fresh → ℕ → ExternalIdentity → Option AuthSession → Known → Store → AdmissionResult × Store
  unfolding session_for_member
  readmit fresh now identity auth existing s =
      let member = record existing.member { identity = identity } in
      put_session (session_for_member fresh now member auth) (record s {
        identities =
            set (key_of identity) (record { identity = identity; member = member }) s.identities;
        sessions = refresh_sessions member s.sessions;
      })

  -- The role that a new identity gets, with the invitation that it uses up.
  unfoldable pub role_for_new : ExternalIdentity → Store → Option (Role × Option InvitationRecord)
  role_for_new identity s =
      if length s.identities == 0
        && key_of identity === identity_key s.bootstrap_issuer s.bootstrap_subject
      then some (owner, none)
      else elim (find (λ i. i.email === normalize_email lower identity.email && is_open i)
          (values s.invitations)) [ none ↦ none | some i ↦ some (viewer, some i) ]

  abbrev accept : Str → Option InvitationRecord → Dict InvitationRecord → Dict InvitationRecord
  accept now none invitations = invitations
  accept now (some i) invitations = set i.id (record i { accepted_at = some now }) invitations

  abbrev invitation_metadata : Option InvitationRecord → List (Str × Str)
  invitation_metadata none = []
  invitation_metadata (some i) = (js "invitationId", i.id) ∷ []

  abbrev new_member : Fresh → ExternalIdentity → Role → MemberRecord
  new_member fresh identity role = record {
    id = fresh.id;
    workspace_id = workspace_id_single;
    identity = identity;
    role = role;
    capabilities = capabilities_for_role role;
  }

  unfoldable pub admit_new :
      Fresh
      → ℕ
      → ExternalIdentity
      → Option AuthSession
      → Role
      → Option InvitationRecord
      → Store
      → AdmissionResult × Store
  unfolding session_for_member audit
  admit_new fresh now identity auth role invitation s =
      let member = new_member fresh identity role in
      put_session (session_for_member fresh now member auth) (
        audit fresh.audit_id (d.iso now) member_admitted member_target fresh.id none
          ((js "email", normalize_email lower identity.email)
            ∷ (js "role", role_text role)
            ∷ invitation_metadata invitation)
          (record s {
            invitations = accept (d.iso now) invitation s.invitations;
            identities =
                set (key_of identity) (record { identity = identity; member = member })
                  s.identities;
          }))

  unfoldable pub admit :
      Fresh → ℕ → ExternalIdentity → Option AuthSession → Store → AdmissionResult × Store
  unfolding readmit admit_new role_for_new validate_external_identity
  admit fresh now identity auth s =
      if validate_external_identity identity
      then elim (get (key_of identity) s.identities) [
        | some existing ↦ readmit fresh now identity auth existing s
        | none ↦ elim (role_for_new identity s) [
          | none ↦ (admission_required, s)
          | some (role, invitation) ↦ admit_new fresh now identity auth role invitation s
        ]
      ]
      else (invalid_identity, s)

  -- A text that is no date compares false, so such a session has not expired.
  unfoldable pub is_expired : Str → ℕ → Bool
  is_expired expires_at now = elim (d.parse expires_at) [ none ↦ false | some t ↦ leb t now ]

  unfoldable pub get_session : Str → ℕ → Store → Option AuthenticatedSession × Store
  unfolding is_expired
  get_session token now s = elim (get token s.sessions) [
    | none ↦ (none, s)
    | some session ↦
        if is_expired session.expires_at now
        then (none, record s { sessions = remove token s.sessions })
        else (some session, s)
  ]
