-- ===== src/Admission/Assign.antt =====
-- The two outcomes of `assignMemberRole`: nothing changes, or one member changes its role and the
-- guard for the last owner was passed.
use tracegarden.Prelude.{
  ℕ, ◌≡◌, refl, inl, inr, Bool, true, false, not, ◌&&◌, Option, none, some, if◌then◌else◌,
  Bool-cases, Option-cases, Str,
}
use tracegarden.Prelude.Dates.{Dates}
use tracegarden.Prelude.Result.{Result, ok, err, Result-cases}
use tracegarden.Identity.{Role, role_of, same_role, is_owner, MemberRecord}
use tracegarden.Admission.{
  Store, Known, Fresh, MembershipActor, AdmissionError, last_workspace_owner, assign_member_role,
  change_role, find_member, assert_can_manage, has_other_owner,
}

-- The guard of the source: the member is an owner, shall be none, and no other member is one.
abbrev pub loses_last_owner : Str → Known → Role → Store → Bool
loses_last_owner id e role s =
    is_owner e.member.role && not (is_owner role) && not (has_other_owner id s.identities)

abbrev pub Answer : Type 0
Answer = Result AdmissionError (Option MemberRecord) × Store

-- The answer is a member.
abbrev pub gives_member : Result AdmissionError (Option MemberRecord) → Bool
gives_member (ok (some m)) = true
gives_member (ok none) = false
gives_member (err e) = false

module _ (d : Dates) (lower : Str → Str) (fresh : Fresh) (now : ℕ) (id name : Str)
    (actor : MembershipActor) (s : Store) where
  pub data Assigned (r : Answer) : Type 0 where
    refused : r.1 ≡ s → gives_member r.0 ≡ false → Assigned r
    kept :
        (role : Role) (k : Str) (e : Known)
        → role_of name ≡ some role
        → find_member id s.identities ≡ some (k, e)
        → same_role e.member.role role ≡ true
        → r ≡ (ok (some e.member), s)
        → Assigned r
    changed :
        (role : Role) (k : Str) (e : Known)
        → role_of name ≡ some role
        → find_member id s.identities ≡ some (k, e)
        → loses_last_owner id e role s ≡ false
        → r ≡ change_role d lower fresh now id role actor k e s
        → Assigned r

  abbrev attempt : Role → Str × Known → Answer
  attempt role (key, current) =
      if same_role current.member.role role
      then (ok (some current.member), s)
      else if loses_last_owner id current role s
      then (err last_workspace_owner, s)
      else change_role d lower fresh now id role actor key current s

  attempt_outcome :
      (role : Role) (p : Str × Known)
      → role_of name ≡ some role
      → find_member id s.identities ≡ some p
      → Assigned (attempt role p)
  attempt_outcome role (k, e) q f = elim (Bool-cases (same_role e.member.role role)) [
    | inl same ↦ rw same (kept role k e q f same refl)
    | inr other ↦ elim (Bool-cases (loses_last_owner id e role s)) [
      | inl last ↦ rw (other, last) (refused refl refl)
      | inr guard ↦ rw (other, guard) (changed role k e q f guard refl)
    ]
  ]

  pub assign_outcome : Assigned (assign_member_role d lower fresh now id name actor s)
  unfolding assign_member_role
  assign_outcome = elim (Result-cases (assert_can_manage actor)) [
    | inl (e, h) ↦ rw (h, assign_member_role) (refused refl refl)
    | inr (u, h) ↦ elim (Option-cases (role_of name)) [
      | inl q ↦ rw (h, assign_member_role, q) (refused refl refl)
      | inr (role, q) ↦ elim (Option-cases (find_member id s.identities)) [
        | inl f ↦ rw (h, assign_member_role, q, f) (refused refl refl)
        | inr (p, f) ↦ rw (h, assign_member_role, q, f) (attempt_outcome role p q f)
      ]
    ]
  ]
