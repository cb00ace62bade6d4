-- ===== src/Admission/Access.antt =====
-- What a session may do after its member's role was changed.
use tracegarden.Prelude.{
  ℕ, ◌≡◌, refl, sym, ap, ◌∙◌, true, some, [], ◌∷◌, arith, some_inj, All, Str, ===_iff,
}
use tracegarden.Prelude.Dates.{Dates}
use tracegarden.Prelude.Dict.{Dict, get, All-get, values}
use tracegarden.Prelude.Result.{ok}
use tracegarden.Identity.{MemberRecord, Role, role_of, same_role, capabilities_for_role}
use tracegarden.Admission.{
  Store, Known, Fresh, MembershipActor, AuthenticatedSession, get_session, assign_member_role,
  change_role, audit, find_member,
}
use tracegarden.Admission.Members.{member_of, member_of-set, get-find_member, find_member_id}
use tracegarden.Admission.Assign.{
  Answer, gives_member, Assigned, refused, kept, changed, assign_outcome,
}
use tracegarden.Admission.Invariant.{IsValid, assign_member_role-IsValid, IsGranted}

member_of-granted :
    (id : Str) (m : Dict Known) (x : MemberRecord)
    → All IsGranted (values m)
    → member_of id m ≡ some x
    → x.capabilities ≡ capabilities_for_role x.role
unfolding member_of
member_of-granted id [] x g h = cc
member_of-granted id ((k, e) ∷ m) x g h = ground (arith, member_of-granted id m x)

member_of-find_member :
    (id : Str) (m : Dict Known) (k : Str) (e : Known)
    → find_member id m ≡ some (k, e)
    → member_of id m ≡ some e.member
unfolding find_member member_of
member_of-find_member id [] k e f = cc
member_of-find_member id ((j, w) ∷ m) k e f = ground (arith, member_of-find_member id m k e)

same_role-eq : (a b : Role) → same_role a b ≡ true → a ≡ b
same_role-eq a b h = ground arith

module _ (d : Dates) (lower : Str → Str) where
  get_session-some :
      (token : Str) (now : ℕ) (s : Store) (x : AuthenticatedSession)
      → (get_session d lower token now s).0 ≡ some x
      → get token s.sessions ≡ some x
  unfolding get_session
  get_session-some token now s x h = ground arith

  -- In a valid store the session that is returned for a token carries its member as the store has it
  -- now.
  pub get_session_current :
      (token : Str) (now : ℕ) (s : Store) (x : AuthenticatedSession)
      → IsValid s
      → (get_session d lower token now s).0 ≡ some x
      → member_of x.member.id s.identities ≡ some x.member
  get_session_current token now s x v h =
      All-get (λ y. member_of y.member.id s.identities ≡ some y.member) token s.sessions x v.current
        (get_session-some token now s x h)

  -- The member that an answer gives is the one that the store then holds, and has the role that was
  -- asked for.
  Assigned-member_of :
      (fresh : Fresh) (now : ℕ) (id name : Str) (actor : MembershipActor) (s : Store)
      (m : MemberRecord) (r : Answer)
      → Assigned d lower fresh now id name actor s r
      → IsValid s
      → r.0 ≡ ok (some m)
      → (member_of id r.1.identities ≡ some m) × (role_of name ≡ some m.role)
  unfolding change_role audit
  Assigned-member_of fresh now id name actor s m r (refused e bad) v h = cc (ap gives_member h)
  Assigned-member_of fresh now id name actor s m r (kept role k x q f same e) v h =
      ground
        (arith, e, h, member_of-find_member id s.identities k x f, same_role-eq x.member.role role)
  Assigned-member_of fresh now id name actor s m r (changed role k x q f guard e) v h = ground (
    arith,
    e,
    h,
    member_of-set k
        (record {
          identity = x.identity;
          member = record x.member { role = role; capabilities = capabilities_for_role role };
        })
        s.identities id x (get-find_member id s.identities k x v.keys f) refl v.ids,
    find_member_id id s.identities k x f,
    ===_iff x.member.id id,
  )

  -- After a call that sets a member's role, every session of that member that the store still
  -- returns carries that member, with the role that was asked for and, in a valid store, exactly
  -- that role's capabilities, whatever it had when it was opened.
  pub get_session-assign_member_role :
      (fresh : Fresh) (now : ℕ) (id name : Str) (actor : MembershipActor) (s : Store)
      (m : MemberRecord) (token : Str) (later : ℕ) (x : AuthenticatedSession)
      → IsValid s
      → (assign_member_role d lower fresh now id name actor s).0 ≡ ok (some m)
      → (get_session d lower token later (assign_member_role d lower fresh now id name actor s).1).0
        ≡ some x
      → x.member.id ≡ id
      → (x.member ≡ m)
        × (role_of name ≡ some m.role)
        × (m.capabilities ≡ capabilities_for_role m.role)
  get_session-assign_member_role fresh now id name actor s m token later x v h g i =
      let r = assign_member_role d lower fresh now id name actor s in
      let v' = assign_member_role-IsValid d lower fresh now id name actor s v in
      let (held, asked) =
        Assigned-member_of fresh now id name actor s m r
          (assign_outcome d lower fresh now id name actor s) v h in
      let current = get_session_current token later r.1 x v' g in
      (
        some_inj x.member m (sym current ∙ rw i held),
        asked,
        member_of-granted id r.1.identities m v'.granted held,
      )
