-- ===== src/Admission/Owners.antt =====
-- A workspace that has an owner keeps one.
use tracegarden.Prelude.{
  ℕ, ◌≡◌, refl, inl, inr, Bool, true, false, not, ◌&&◌, Option, some, List, [], ◌∷◌, arith,
  Bool-cases, Option-cases, any, Str, ◌===◌, ===_iff,
}
use tracegarden.Prelude.Dates.{Dates}
use tracegarden.Prelude.Dict.{Dict, get, set, values, any-set, any-set_new, any-set_self}
use tracegarden.Prelude.Result.{Result}
use tracegarden.Identity.{
  Role, is_owner, MemberRecord, ExternalIdentity, key_of, validate_external_identity,
}
use tracegarden.Admission.{
  Store, AdmissionError, Known, Fresh, AuthSession, MembershipActor, audit, admit, readmit,
  admit_new, role_for_new, change_role, record_log_access, find_member, has_other_owner,
}
use tracegarden.Admission.Members.{get-find_member, find_member_id}
use tracegarden.Admission.Assign.{
  Assigned, refused, kept, changed, assign_outcome, loses_last_owner,
}
use tracegarden.Admission.Invariant.{IsValid}
use tracegarden.Admission.Trace.{
  Call, admission, session, invite, revoke, assign, log, step, run, AreFresh, step-IsValid,
  create_invitation_keeps, revoke_invitation_keeps, get_session-identities,
}

abbrev owns : Known → Bool
owns e = is_owner e.member.role

abbrev pub has_owner : Store → Bool
has_owner s = any owns (values s.identities)

-- Writing an owner over an owner, or anything over a member that is none.
any_owner-set :
    (k : Str) (e' e : Known) (m : Dict Known)
    → get k m ≡ some e
    → owns e' ≡ owns e
    → any owns (values m) ≡ true
    → any owns (values (set k e' m)) ≡ true
any_owner-set k e' e m g same h = elim (Bool-cases (owns e)) [
  | inl o ↦ any-set_self owns k e' m (ground arith)
  | inr o ↦ any-set owns k e' m g o h
]

other_owner-set :
    (id k : Str) (e' e : Known) (m : Dict Known)
    → get k m ≡ some e
    → e.member.id ≡ id
    → has_other_owner id m ≡ true
    → any owns (values (set k e' m)) ≡ true
unfolding has_other_owner
other_owner-set id k e' e m g i h = owner_of_other (set k e' m) (
    any-set (λ x. not (x.member.id === id) && owns x) k e' m g
      (ground (arith, ===_iff e.member.id id)) h)
  where
    owner_of_other :
        (m : Dict Known)
        → any (λ x. not (x.member.id === id) && owns x) (values m) ≡ true
        → any owns (values m) ≡ true
    owner_of_other [] h = h
    owner_of_other ((j, x) ∷ m) h = ground (arith, owner_of_other m)

module _ (d : Dates) (lower : Str → Str) where
  admit-has_owner :
      (fresh : Fresh) (now : ℕ) (i : ExternalIdentity) (auth : Option AuthSession) (s : Store)
      → has_owner s ≡ true
      → has_owner (admit d lower fresh now i auth s).1 ≡ true
  unfolding admit readmit admit_new audit
  admit-has_owner fresh now i auth s h = elim (Bool-cases (validate_external_identity i)) [
    | inr bad ↦ rw bad h
    | inl good ↦ elim (Option-cases (get (key_of i) s.identities)) [
      | inr (e, g) ↦ rw (good, g) (any_owner-set (key_of i) _ e s.identities g refl h)
      | inl g ↦ elim (Option-cases (role_for_new d lower i s)) [
        | inl r ↦ rw (good, g, r) h
        | inr (r, q) ↦ rw (good, g, q) (rw (any-set_new owns (key_of i) _ s.identities g, h))
      ]
    ]
  ]

  change_role-has_owner :
      (fresh : Fresh) (now : ℕ) (id : Str) (actor : MembershipActor) (role : Role) (k : Str)
      (e : Known) (s : Store)
      → IsValid s
      → find_member id s.identities ≡ some (k, e)
      → loses_last_owner id e role s ≡ false
      → has_owner s ≡ true
      → has_owner (change_role d lower fresh now id role actor k e s).1 ≡ true
  unfolding change_role audit
  change_role-has_owner fresh now id actor role k e s v f guard h =
      let g = get-find_member id s.identities k e v.keys f in
      let i = find_member_id id s.identities k e f in
      elim (Bool-cases (is_owner role)) [
        | inl o ↦ any-set_self owns k _ s.identities o
        | inr o ↦ elim (Bool-cases (owns e)) [
          | inr p ↦ any-set owns k _ s.identities g p h
          | inl p ↦ other_owner-set id k _ e s.identities g i (ground arith)
        ]
      ]

  Assigned-has_owner :
      (fresh : Fresh) (now : ℕ) (id name : Str) (actor : MembershipActor) (s : Store)
      (r : Result AdmissionError (Option MemberRecord) × Store)
      → Assigned d lower fresh now id name actor s r
      → IsValid s
      → has_owner s ≡ true
      → has_owner r.1 ≡ true
  Assigned-has_owner fresh now id name actor s r (refused e bad) v h = rw e h
  Assigned-has_owner fresh now id name actor s r (kept role k x q f same e) v h = rw e h
  Assigned-has_owner fresh now id name actor s r (changed role k x q f guard e) v h =
      rw e (change_role-has_owner fresh now id actor role k x s v f guard h)

  step-has_owner :
      (c : Call) (s : Store) → IsValid s → has_owner s ≡ true → has_owner (step d lower c s) ≡ true
  unfolding step
  step-has_owner (admission fresh now i auth) s v h = admit-has_owner fresh now i auth s h
  step-has_owner (session token now) s v h = rw (get_session-identities d lower token now s) h
  step-has_owner (invite fresh now address actor) s v h =
      rw (create_invitation_keeps d lower fresh now address actor s).0 h
  step-has_owner (revoke fresh now id actor) s v h =
      rw (revoke_invitation_keeps d lower fresh now id actor s).0 h
  step-has_owner (assign fresh now id name actor) s v h =
      Assigned-has_owner fresh now id name actor s _
        (assign_outcome d lower fresh now id name actor s) v h
  step-has_owner (log fresh now actor metadata) s v h = unfold record_log_access audit in h

  -- From a valid store with an owner, any sequence of calls leads to a store with an owner, if each
  -- new member gets an id that no member has.
  pub run-has_owner :
      (calls : List Call) (s : Store)
      → AreFresh d lower calls s
      → IsValid s
      → has_owner s ≡ true
      → has_owner (run d lower calls s) ≡ true
  unfolding run
  run-has_owner [] s f v h = h
  run-has_owner (c ∷ calls) s f v h =
      run-has_owner calls (step d lower c s) f.1 (step-IsValid d lower c s f.0 v)
        (step-has_owner c s v h)
