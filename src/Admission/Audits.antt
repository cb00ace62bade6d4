-- ===== src/Admission/Audits.antt =====
-- The audit trail: it only grows, and names who changed a membership.
use tracegarden.Prelude.{
  ℕ, ◌≡◌, refl, sym, ◌∙◌, inl, inr, false, Option, some, List, [], ◌∷◌, ◌++◌, arith, if◌then◌else◌,
  Bool-cases, Option-cases, Str, trim, truthy, append-nil, append_assoc,
}
use tracegarden.Prelude.Dates.{Dates}
use tracegarden.Prelude.Dict.{get}
use tracegarden.Prelude.Result.{Result, err, Result-cases}
use tracegarden.Identity.{
  ExternalIdentity, MemberRecord, key_of, validate_external_identity, require_capability,
  has_capability, membership_manage, missing_capability,
}
use tracegarden.Identity.Email.{normalize_invitation_email}
use tracegarden.Admission.{
  Store, AdmissionError, access, actor_required, Fresh, AuthSession, AuditRecord, MembershipActor,
  is_open, audit, admit, readmit, admit_new, role_for_new, get_session, change_role,
  assert_can_manage, create_invitation, revoke_invitation, assign_member_role, record_log_access,
}
use tracegarden.Admission.Assign.{Assigned, refused, kept, changed, assign_outcome}
use tracegarden.Admission.Trace.{Call, admission, session, invite, revoke, assign, log, step, run}

-- The trail of one store continues that of another.
abbrev pub Extends : Store → Store → Type 0
Extends s s' = (new : List AuditRecord) × (s'.audits ≡ s.audits ++ new)

Extends-refl : (s : Store) → Extends s s
Extends-refl s = ([], sym (append-nil s.audits))

Extends-of_eq : (s s' : Store) → s' ≡ s → Extends s s'
Extends-of_eq s s' e = rw e (Extends-refl s)

Extends-trans : (s t u : Store) → Extends s t → Extends t u → Extends s u
Extends-trans s t u (a, p) (b, q) = (a ++ b, rw (q, p) (append_assoc s.audits a b))

-- Nothing changed, or the change was recorded once, under the id of the actor.
pub data AuditedBy (actor : MembershipActor) (s s' : Store) : Type 0 where
  untouched : s' ≡ s → AuditedBy actor s s'
  audited :
      (r : AuditRecord)
      → r.actor_member_id ≡ some actor.id
      → s'.audits ≡ s.audits ++ r ∷ []
      → AuditedBy actor s s'

AuditedBy-Extends : (actor : MembershipActor) (s s' : Store) → AuditedBy actor s s' → Extends s s'
AuditedBy-Extends actor s s' (untouched e) = Extends-of_eq s s' e
AuditedBy-Extends actor s s' (audited r a e) = (r ∷ [], e)

-- The error for an actor that may not manage memberships.
abbrev pub refusal : MembershipActor → AdmissionError
refusal actor =
    if truthy (trim actor.id) then access (missing_capability membership_manage) else actor_required

module _ (d : Dates) (lower : Str → Str) where
  -- An invitation is made without a trace or with one record under the actor's id.
  pub create_invitation-AuditedBy :
      (fresh : Fresh) (now : ℕ) (address : Str) (actor : MembershipActor) (s : Store)
      → AuditedBy actor s (create_invitation d lower fresh now address actor s).1
  unfolding create_invitation audit
  create_invitation-AuditedBy fresh now address actor s =
      elim (Result-cases (assert_can_manage actor)) [
        | inl (e, h) ↦ rw (h, create_invitation) (untouched refl)
        | inr (u, h) ↦ elim (Result-cases (normalize_invitation_email lower address)) [
          | inl (e, n) ↦ rw (h, create_invitation, n) (untouched refl)
          | inr (a, n) ↦ rw (h, create_invitation, n) (audited _ refl refl)
        ]
      ]

  -- A revocation changes nothing, or adds exactly one audit record under the id of the actor.
  pub revoke_invitation-AuditedBy :
      (fresh : Fresh) (now : ℕ) (id : Str) (actor : MembershipActor) (s : Store)
      → AuditedBy actor s (revoke_invitation d lower fresh now id actor s).1
  unfolding revoke_invitation audit
  revoke_invitation-AuditedBy fresh now id actor s = elim (Result-cases (assert_can_manage actor)) [
    | inl (e, h) ↦ rw (h, revoke_invitation) (untouched refl)
    | inr (u, h) ↦ elim (Option-cases (get id s.invitations)) [
      | inl g ↦ rw (h, revoke_invitation, g) (untouched refl)
      | inr (i, g) ↦ elim (Bool-cases (is_open i)) [
        | inl o ↦ rw (h, revoke_invitation, g, o) (audited _ refl refl)
        | inr o ↦ rw (h, revoke_invitation, g, o) (untouched refl)
      ]
    ]
  ]

  Assigned-AuditedBy :
      (fresh : Fresh) (now : ℕ) (id name : Str) (actor : MembershipActor) (s : Store)
      (r : Result AdmissionError (Option MemberRecord) × Store)
      → Assigned d lower fresh now id name actor s r
      → AuditedBy actor s r.1
  unfolding change_role audit
  Assigned-AuditedBy fresh now id name actor s r (refused e bad) = untouched e
  Assigned-AuditedBy fresh now id name actor s r (kept role k x q f same e) = rw e (untouched refl)
  Assigned-AuditedBy fresh now id name actor s r (changed role k x q f guard e) =
      rw e (audited _ refl refl)

  -- A request for a role leaves the store as it was, or adds exactly one audit record, at the end
  -- and under the id of the actor.
  pub assign_member_role-AuditedBy :
      (fresh : Fresh) (now : ℕ) (id name : Str) (actor : MembershipActor) (s : Store)
      → AuditedBy actor s (assign_member_role d lower fresh now id name actor s).1
  assign_member_role-AuditedBy fresh now id name actor s =
      Assigned-AuditedBy fresh now id name actor s _
        (assign_outcome d lower fresh now id name actor s)

  admit-Extends :
      (fresh : Fresh) (now : ℕ) (i : ExternalIdentity) (auth : Option AuthSession) (s : Store)
      → Extends s (admit d lower fresh now i auth s).1
  unfolding admit readmit admit_new audit
  admit-Extends fresh now i auth s = elim (Bool-cases (validate_external_identity i)) [
    | inr bad ↦ rw bad (Extends-refl s)
    | inl good ↦ elim (Option-cases (get (key_of i) s.identities)) [
      | inr (e, g) ↦ rw (good, g) (Extends-refl s)
      | inl g ↦ elim (Option-cases (role_for_new d lower i s)) [
        | inl r ↦ rw (good, g, r) (Extends-refl s)
        | inr (r, q) ↦ rw (good, g, q) (_, refl)
      ]
    ]
  ]

  get_session-audits :
      (token : Str) (now : ℕ) (s : Store) → (get_session d lower token now s).1.audits ≡ s.audits
  unfolding get_session
  get_session-audits token now s = ground arith

  step-Extends : (c : Call) (s : Store) → Extends s (step d lower c s)
  unfolding step
  step-Extends (admission fresh now i auth) s = admit-Extends fresh now i auth s
  step-Extends (session token now) s =
      ([], get_session-audits token now s ∙ sym (append-nil s.audits))
  step-Extends (invite fresh now address actor) s =
      AuditedBy-Extends actor s _ (create_invitation-AuditedBy fresh now address actor s)
  step-Extends (revoke fresh now id actor) s =
      AuditedBy-Extends actor s _ (revoke_invitation-AuditedBy fresh now id actor s)
  step-Extends (assign fresh now id name actor) s =
      AuditedBy-Extends actor s _ (assign_member_role-AuditedBy fresh now id name actor s)
  step-Extends (log fresh now actor metadata) s = unfold record_log_access audit in (_, refl)

  -- No sequence of calls removes or changes an audit record: the trail before is a prefix of the trail
  -- after.
  pub run-Extends : (calls : List Call) (s : Store) → Extends s (run d lower calls s)
  unfolding run
  run-Extends [] s = Extends-refl s
  run-Extends (c ∷ calls) s =
      Extends-trans s (step d lower c s) (run d lower calls (step d lower c s)) (step-Extends c s)
        (run-Extends calls (step d lower c s))

  refusal-eq :
      (actor : MembershipActor)
      → has_capability actor.capabilities membership_manage ≡ false
      → assert_can_manage actor ≡ err (refusal actor)
  unfolding assert_can_manage require_capability has_capability
  refusal-eq actor h = ground arith

  -- An actor without the capability to manage memberships changes nothing by any of the three
  -- methods, and each throws: for a blank id that an actor is required, else that the capability is
  -- missing.
  pub managers_only :
      (fresh : Fresh) (now : ℕ) (subject name : Str) (actor : MembershipActor) (s : Store)
      → has_capability actor.capabilities membership_manage ≡ false
      → (create_invitation d lower fresh now subject actor s ≡ (err (refusal actor), s))
        × (revoke_invitation d lower fresh now subject actor s ≡ (err (refusal actor), s))
        × (assign_member_role d lower fresh now subject name actor s ≡ (err (refusal actor), s))
  unfolding create_invitation revoke_invitation assign_member_role
  managers_only fresh now subject name actor s h =
      let e = refusal-eq actor h in
      (rw (e, create_invitation), rw (e, revoke_invitation), rw (e, assign_member_role))
