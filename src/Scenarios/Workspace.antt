-- ===== src/Scenarios/Workspace.antt =====
-- The theorems on admission at the small workspace.
use tracegarden.Prelude.{◌+◌, ◌≡◌, refl, true, false, none, some, List, [], ◌∷◌, js, ◌===◌, trim}
use tracegarden.Prelude.Dict.{get, set, values}
use tracegarden.Prelude.Result.{err}
use tracegarden.Identity.{
  owner, operator, viewer, role_of, capabilities_for_role, has_capability, key_of, identity_key,
  validate_external_identity, require_capability,
}
use tracegarden.Identity.Email.{normalize_email, is_email, normalize_invitation_email}
use tracegarden.Admission.{
  admit, admit_new, role_for_new, audit, create_invitation, revoke_invitation, assign_member_role,
  assert_can_manage, get_session, is_expired, find_member, has_other_owner, change_role,
  refresh_sessions,
}
use tracegarden.Admission.Members.{member_of}
use tracegarden.Admission.Invariant.{IsValid}
use tracegarden.Admission.Trace.{Call, admission, invite, assign, step, run, run-IsValid}
use tracegarden.Admission.Owners.{has_owner, run-has_owner}
use tracegarden.Admission.Audits.{Extends, refusal, run-Extends, managers_only}
use tracegarden.Admission.Entry.{
  is_admitted, may_enter, count_open, admit-may_enter, admit_single_use,
}
use tracegarden.Admission.Access.{get_session-assign_member_role}
use tracegarden.Scenarios.Fixtures.{
  dates, lower, person, member, actor, session_of, fresh, workspace,
}

workspace-IsValid : IsValid workspace
unfolding get member_of ◌===◌ trim
workspace-IsValid = record {
  keys = (refl, (refl, tt));
  ids = (refl, (refl, tt));
  granted = ((refl, refl), ((refl, refl), tt));
  current = (refl, (refl, tt));
}

-- Alice tries to step down, invites Dan, and Bob comes in.
abbrev calls : List Call
calls =
    assign (fresh (js "x")) 10 (js "m-alice") (js "viewer") (actor (js "alice") owner)
    ∷ invite (fresh (js "y")) 11 (js " Dan@example.com") (actor (js "alice") owner)
    ∷ admission (fresh (js "bob")) 12 (person (js "bob")) none
    ∷ []

run-has_owner_example : has_owner (run dates lower calls workspace) ≡ true
unfolding step assign_member_role create_invitation member_of assert_can_manage require_capability
    has_capability capabilities_for_role role_of find_member has_other_owner
    normalize_invitation_email normalize_email is_email audit ◌===◌ trim
run-has_owner_example =
    run-has_owner dates lower calls workspace (tt, (tt, (refl, tt))) workspace-IsValid refl

run-IsValid_example : IsValid (run dates lower calls workspace)
unfolding step assign_member_role create_invitation member_of assert_can_manage require_capability
    has_capability capabilities_for_role role_of find_member has_other_owner
    normalize_invitation_email normalize_email is_email audit ◌===◌ trim
run-IsValid_example =
    run-IsValid dates lower calls workspace (tt, (tt, (refl, tt))) workspace-IsValid

run-Extends_example : Extends workspace (run dates lower calls workspace)
run-Extends_example = run-Extends dates lower calls workspace

admit-may_enter_example :
    let r = admit dates lower (fresh (js "eve")) 12 (person (js "eve")) none workspace in
    (is_admitted r.0 ≡ may_enter dates lower (person (js "eve")) workspace)
    × ((is_admitted r.0 ≡ false) → r.1 ≡ workspace)
admit-may_enter_example =
    admit-may_enter dates lower (fresh (js "eve")) 12 (person (js "eve")) none workspace

-- Bob is admitted, and Eve is not.
admit_bob :
    is_admitted (admit dates lower (fresh (js "bob")) 12 (person (js "bob")) none workspace).0
    ≡ true
unfolding admit admit_new role_for_new validate_external_identity key_of identity_key get
    normalize_email ◌===◌ trim
admit_bob = refl

refuse_eve :
    is_admitted (admit dates lower (fresh (js "eve")) 12 (person (js "eve")) none workspace).0
    ≡ false
unfolding admit admit_new role_for_new validate_external_identity key_of identity_key get
    normalize_email ◌===◌ trim
refuse_eve = refl

admit_single_use_example :
    let address = normalize_email lower (person (js "bob")).email in
    count_open address (
        values
          (admit dates lower
            (fresh (js "bob"))
            12
            (person (js "bob"))
            none
            workspace).1.invitations)
      + 1
    ≡ count_open address (values workspace.invitations)
unfolding get key_of identity_key ◌===◌ trim
admit_single_use_example =
    admit_single_use dates lower (fresh (js "bob")) 12 (person (js "bob")) none workspace
      (refl, refl, tt) refl refl admit_bob

managers_only_example :
    let vera = actor (js "vera") viewer in
    (create_invitation dates lower (fresh (js "x")) 10 (js "m-vera") vera workspace
      ≡ (err (refusal vera), workspace))
    × (revoke_invitation dates lower (fresh (js "x")) 10 (js "m-vera") vera workspace
        ≡ (err (refusal vera), workspace))
    × (assign_member_role dates lower (fresh (js "x")) 10 (js "m-vera") (js "owner") vera workspace
        ≡ (err (refusal vera), workspace))
unfolding has_capability capabilities_for_role ◌===◌ trim
managers_only_example =
    managers_only dates lower (fresh (js "x")) 10 (js "m-vera") (js "owner")
      (actor (js "vera") viewer) workspace refl

get_session-assign_member_role_example :
    (member (js "vera") operator ≡ member (js "vera") operator)
    × (role_of (js "operator") ≡ some operator)
    × ((member (js "vera") operator).capabilities ≡ capabilities_for_role operator)
unfolding get_session is_expired get set assign_member_role assert_can_manage require_capability
    has_capability capabilities_for_role role_of find_member change_role audit refresh_sessions
    ◌===◌ trim
get_session-assign_member_role_example =
    get_session-assign_member_role dates lower (fresh (js "x")) 10 (js "m-vera") (js "operator")
      (actor (js "alice") owner) workspace (member (js "vera") operator) (js "s-vera") 50
      (session_of (js "vera") operator (js "s-vera")) workspace-IsValid refl refl refl
