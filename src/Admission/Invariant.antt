-- ===== src/Admission/Invariant.antt =====
-- What holds of a store between two calls, and that every method keeps it.
use tracegarden.Prelude.{
  ℕ, ◌≡◌, refl, inl, inr, Option, none, some, Bool-cases, Option-cases, All, Str, ===_refl,
}
use tracegarden.Prelude.Dates.{Dates}
use tracegarden.Prelude.Dict.{
  Dict, get, set, values, KeysDistinct, set-KeysDistinct, All-set, All-get,
}
use tracegarden.Prelude.Result.{Result}
use tracegarden.Identity.{
  Role, capabilities_for_role, MemberRecord, ExternalIdentity, key_of, workspace_id_single,
  validate_external_identity,
}
use tracegarden.Admission.{
  Store, AdmissionError, Known, Fresh, AuthSession, AuthenticatedSession, MembershipActor,
  InvitationRecord, new_store, admit, readmit, admit_new, assign_member_role, change_role,
  session_for_member, audit, find_member, refresh_sessions, role_for_new,
}
use tracegarden.Admission.Assign.{Assigned, refused, kept, changed, assign_outcome}
use tracegarden.Admission.Members.{
  member_of, IdsDistinct, member_of-set, member_of-set_new, IdsDistinct-set, IdsDistinct-set_new,
  get-find_member, AreCurrent, refresh_sessions-AreCurrent, AreCurrent-set_new,
}

abbrev pub IsGranted : Known → Type 0
IsGranted e =
    (e.member.capabilities ≡ capabilities_for_role e.member.role) × (e.member.identity ≡ e.identity)

-- The keys and the ids of `identities` are distinct, each member holds its role's capabilities and
-- the identity that it came by, and each session carries its member as it is now.
pub record IsValid (s : Store) : Type 0 where
  pub keys : KeysDistinct s.identities
  pub ids : IdsDistinct s.identities
  pub granted : All IsGranted (values s.identities)
  pub current : AreCurrent s.identities s.sessions

pub new_store-IsValid : (issuer subject : Str) → IsValid (new_store issuer subject)
unfolding new_store
new_store-IsValid issuer subject = record { keys = tt; ids = tt; granted = tt; current = tt }

module _ (d : Dates) (lower : Str → Str) where
  -- A session that is opened for a member of the map is current.
  open_session-AreCurrent :
      (fresh : Fresh) (now : ℕ) (m : MemberRecord) (auth : Option AuthSession) (ids : Dict Known)
      (sessions : Dict AuthenticatedSession)
      → member_of m.id ids ≡ some m
      → AreCurrent ids sessions
      → let x = session_for_member d lower fresh now m auth in
        AreCurrent ids (set x.token x sessions)
  unfolding session_for_member
  open_session-AreCurrent fresh now m none ids sessions h c =
      All-set (λ x. member_of x.member.id ids ≡ some x.member) fresh.token _ sessions h c
  open_session-AreCurrent fresh now m (some a) ids sessions h c =
      All-set (λ x. member_of x.member.id ids ≡ some x.member) a.token _ sessions h c

  readmit-IsValid :
      (fresh : Fresh) (now : ℕ) (i : ExternalIdentity) (auth : Option AuthSession) (e : Known)
      (s : Store)
      → get (key_of i) s.identities ≡ some e
      → IsValid s
      → IsValid (readmit d lower fresh now i auth e s).1
  unfolding readmit
  readmit-IsValid fresh now i auth e s g v =
      let m : MemberRecord = record e.member { identity = i } in
      let e' : Known = record { identity = i; member = m } in
      let new = set (key_of i) e' s.identities in
      let lookup = λ (id : Str). member_of-set (key_of i) e' s.identities id e g refl v.ids in
      record {
        keys = set-KeysDistinct (key_of i) e' s.identities v.keys;
        ids = IdsDistinct-set (key_of i) e' s.identities e g refl v.ids;
        granted =
            All-set IsGranted (key_of i) e' s.identities
              ((All-get IsGranted (key_of i) s.identities e v.granted g).0, refl) v.granted;
        current =
            open_session-AreCurrent fresh now m auth new (refresh_sessions m s.sessions)
              (rw (lookup m.id, ===_refl m.id))
              (refresh_sessions-AreCurrent s.identities new m s.sessions lookup v.current);
      }

  admit_new-IsValid :
      (fresh : Fresh) (now : ℕ) (i : ExternalIdentity) (auth : Option AuthSession) (role : Role)
      (invitation : Option InvitationRecord) (s : Store)
      → get (key_of i) s.identities ≡ none
      → member_of fresh.id s.identities ≡ none
      → IsValid s
      → IsValid (admit_new d lower fresh now i auth role invitation s).1
  unfolding admit_new audit
  admit_new-IsValid fresh now i auth role invitation s g new v =
      let m : MemberRecord = record {
        id = fresh.id;
        workspace_id = workspace_id_single;
        identity = i;
        role = role;
        capabilities = capabilities_for_role role;
      } in
      let e : Known = record { identity = i; member = m } in
      record {
        keys = set-KeysDistinct (key_of i) e s.identities v.keys;
        ids = IdsDistinct-set_new (key_of i) e s.identities g new v.ids;
        granted = All-set IsGranted (key_of i) e s.identities (refl, refl) v.granted;
        current =
            open_session-AreCurrent fresh now m auth (set (key_of i) e s.identities) s.sessions
              (rw (member_of-set_new (key_of i) e s.identities m.id g, new, ===_refl m.id))
              (AreCurrent-set_new (key_of i) e s.identities s.sessions g v.current);
      }

  -- An admission, whatever it answers, keeps the store valid, if `randomUUID` returns an id that no
  -- member has.
  pub admit-IsValid :
      (fresh : Fresh) (now : ℕ) (i : ExternalIdentity) (auth : Option AuthSession) (s : Store)
      → member_of fresh.id s.identities ≡ none
      → IsValid s
      → IsValid (admit d lower fresh now i auth s).1
  unfolding admit
  admit-IsValid fresh now i auth s new v = elim (Bool-cases (validate_external_identity i)) [
    | inr bad ↦ rw bad v
    | inl good ↦ elim (Option-cases (get (key_of i) s.identities)) [
      | inr (e, g) ↦ rw (good, g) (readmit-IsValid fresh now i auth e s g v)
      | inl g ↦ elim (Option-cases (role_for_new d lower i s)) [
        | inl r ↦ rw (good, g, r) v
        | inr (r, q) ↦ rw (good, g, q) (admit_new-IsValid fresh now i auth r.0 r.1 s g new v)
      ]
    ]
  ]

  change_role-IsValid :
      (fresh : Fresh) (now : ℕ) (id : Str) (role : Role) (actor : MembershipActor) (k : Str)
      (e : Known) (s : Store)
      → find_member id s.identities ≡ some (k, e)
      → IsValid s
      → IsValid (change_role d lower fresh now id role actor k e s).1
  unfolding change_role audit
  change_role-IsValid fresh now id role actor k e s f v =
      let m : MemberRecord = record e.member {
        role = role;
        capabilities = capabilities_for_role role;
      } in
      let e' : Known = record { identity = e.identity; member = m } in
      let g = get-find_member id s.identities k e v.keys f in
      let lookup = λ (j : Str). member_of-set k e' s.identities j e g refl v.ids in
      record {
        keys = set-KeysDistinct k e' s.identities v.keys;
        ids = IdsDistinct-set k e' s.identities e g refl v.ids;
        granted =
            All-set IsGranted k e' s.identities
              (refl, (All-get IsGranted k s.identities e v.granted g).1) v.granted;
        current =
            refresh_sessions-AreCurrent s.identities (set k e' s.identities) m s.sessions lookup
              v.current;
      }

  Assigned-IsValid :
      (fresh : Fresh) (now : ℕ) (id name : Str) (actor : MembershipActor) (s : Store)
      (r : Result AdmissionError (Option MemberRecord) × Store)
      → Assigned d lower fresh now id name actor s r
      → IsValid s
      → IsValid r.1
  Assigned-IsValid fresh now id name actor s r (refused e bad) v = rw e v
  Assigned-IsValid fresh now id name actor s r (kept role k x q f same e) v = rw e v
  Assigned-IsValid fresh now id name actor s r (changed role k x q f guard e) v =
      rw e (change_role-IsValid fresh now id role actor k x s f v)

  -- A role assignment keeps the store valid, on every branch.
  pub assign_member_role-IsValid :
      (fresh : Fresh) (now : ℕ) (id name : Str) (actor : MembershipActor) (s : Store)
      → IsValid s
      → IsValid (assign_member_role d lower fresh now id name actor s).1
  assign_member_role-IsValid fresh now id name actor s v =
      Assigned-IsValid fresh now id name actor s _
        (assign_outcome d lower fresh now id name actor s) v
