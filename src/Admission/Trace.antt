-- ===== src/Admission/Trace.antt =====
-- Sequences of calls of the store's methods, and what holds after any of them.
use tracegarden.Prelude.{
  ℕ, ◌≡◌, refl, inl, inr, Option, none, some, List, [], ◌∷◌, arith, Bool-cases, Option-cases, Str,
}
use tracegarden.Prelude.Dates.{Dates}
use tracegarden.Prelude.Dict.{get, All-remove}
use tracegarden.Identity.{ExternalIdentity}
use tracegarden.Admission.{
  Store, Fresh, AuthSession, MembershipActor, is_expired, audit, admit, get_session,
  create_invitation, revoke_invitation, assign_member_role, record_log_access,
}
use tracegarden.Admission.Members.{member_of}
use tracegarden.Admission.Invariant.{IsValid, admit-IsValid, assign_member_role-IsValid}

pub data Call : Type 0 where
  admission : Fresh → ℕ → ExternalIdentity → Option AuthSession → Call
  session : Str → ℕ → Call
  invite : Fresh → ℕ → Str → MembershipActor → Call
  revoke : Fresh → ℕ → Str → MembershipActor → Call
  assign : Fresh → ℕ → Str → Str → MembershipActor → Call
  log : Fresh → ℕ → Str → List (Str × Str) → Call

module _ (d : Dates) (lower : Str → Str) where
  unfoldable pub step : Call → Store → Store
  step (admission fresh now i auth) s = (admit d lower fresh now i auth s).1
  step (session token now) s = (get_session d lower token now s).1
  step (invite fresh now address actor) s = (create_invitation d lower fresh now address actor s).1
  step (revoke fresh now id actor) s = (revoke_invitation d lower fresh now id actor s).1
  step (assign fresh now id name actor) s = (assign_member_role d lower fresh now id name actor s).1
  step (log fresh now actor metadata) s = record_log_access d lower fresh now actor metadata s

  unfoldable pub run : List Call → Store → Store
  unfolding step
  run [] s = s
  run (c ∷ calls) s = run calls (step c s)

  -- `randomUUID` does not return the id of a member that is there.
  abbrev pub IsFresh : Call → Store → Type 0
  IsFresh (admission fresh now i auth) s = member_of fresh.id s.identities ≡ none
  IsFresh (session token now) s = Unit
  IsFresh (invite fresh now address actor) s = Unit
  IsFresh (revoke fresh now id actor) s = Unit
  IsFresh (assign fresh now id name actor) s = Unit
  IsFresh (log fresh now actor metadata) s = Unit

  abbrev pub AreFresh : List Call → Store → Type 0
  AreFresh [] s = Unit
  AreFresh (c ∷ calls) s = IsFresh c s × AreFresh calls (step c s)

  -- A request for a session changes at most the sessions.
  pub get_session-identities :
      (token : Str) (now : ℕ) (s : Store)
      → (get_session d lower token now s).1.identities ≡ s.identities
  unfolding get_session
  get_session-identities token now s = ground arith

  get_session-IsValid :
      (token : Str) (now : ℕ) (s : Store) → IsValid s → IsValid (get_session d lower token now s).1
  unfolding get_session
  get_session-IsValid token now s v = elim (Option-cases (get token s.sessions)) [
    | inl g ↦ rw (g, get_session) v
    | inr (x, g) ↦ elim (Bool-cases (is_expired d lower x.expires_at now)) [
      | inr e ↦ rw (g, get_session, e) v
      | inl e ↦
          rw (g, get_session, e)
            (record {
              keys = v.keys;
              ids = v.ids;
              granted = v.granted;
              current =
                  All-remove (λ x. member_of x.member.id s.identities ≡ some x.member) token
                    s.sessions v.current;
            })
    ]
  ]

  -- Invitations are made and revoked beside the members and their sessions.
  pub create_invitation_keeps :
      (fresh : Fresh) (now : ℕ) (address : Str) (actor : MembershipActor) (s : Store)
      → let s' = (create_invitation d lower fresh now address actor s).1 in
        (s'.identities ≡ s.identities) × (s'.sessions ≡ s.sessions)
  unfolding create_invitation
  create_invitation_keeps fresh now address actor s = ground arith

  pub revoke_invitation_keeps :
      (fresh : Fresh) (now : ℕ) (id : Str) (actor : MembershipActor) (s : Store)
      → let s' = (revoke_invitation d lower fresh now id actor s).1 in
        (s'.identities ≡ s.identities) × (s'.sessions ≡ s.sessions)
  unfolding revoke_invitation
  revoke_invitation_keeps fresh now id actor s = ground arith

  IsValid-of_same :
      (s s' : Store)
      → s'.identities ≡ s.identities
      → s'.sessions ≡ s.sessions
      → IsValid s
      → IsValid s'
  IsValid-of_same s s' i x v = record {
    keys = rw i v.keys;
    ids = rw i v.ids;
    granted = rw i v.granted;
    current = rw (i, x) v.current;
  }

  -- Every method keeps the store valid, whatever its outcome.
  pub step-IsValid : (c : Call) (s : Store) → IsFresh c s → IsValid s → IsValid (step c s)
  unfolding step
  step-IsValid (admission fresh now i auth) s f v = admit-IsValid d lower fresh now i auth s f v
  step-IsValid (session token now) s f v = get_session-IsValid token now s v
  step-IsValid (invite fresh now address actor) s f v =
      let h = create_invitation_keeps fresh now address actor s in IsValid-of_same s _ h.0 h.1 v
  step-IsValid (revoke fresh now id actor) s f v =
      let h = revoke_invitation_keeps fresh now id actor s in IsValid-of_same s _ h.0 h.1 v
  step-IsValid (assign fresh now id name actor) s f v =
      assign_member_role-IsValid d lower fresh now id name actor s v
  step-IsValid (log fresh now actor metadata) s f v =
      unfold record_log_access audit in IsValid-of_same s _ refl refl v

  -- Any sequence of calls leads from a valid store to a valid store, whatever the outcomes, if each
  -- admission gets an id that no member has: no key or id stands twice, each member holds exactly its
  -- role's capabilities, and each session carries its member as it is now.
  pub run-IsValid :
      (calls : List Call) (s : Store) → AreFresh calls s → IsValid s → IsValid (run calls s)
  unfolding run
  run-IsValid [] s f v = v
  run-IsValid (c ∷ calls) s f v = run-IsValid calls (step c s) f.1 (step-IsValid c s f.0 v)
