-- ===== src/Admission/Entry.antt =====
-- Who is let in, and that an invitation serves once.
use tracegarden.Prelude.{
  ℕ, suc, ◌+◌, ◌≡◌, refl, inl, inr, Bool, true, false, ◌&&◌, ◌||◌, Option, none, some, List, [],
  ◌∷◌, arith, ◌==◌, if◌then◌else◌, Bool-cases, Option-cases, is_some, length, any, find, Str, ◌===◌,
  ===_iff,
}
use tracegarden.Prelude.Dates.{Dates}
use tracegarden.Prelude.Dict.{Dict, get, set, values}
use tracegarden.Identity.{
  Role, viewer, ExternalIdentity, key_of, identity_key, validate_external_identity,
}
use tracegarden.Identity.Email.{normalize_email}
use tracegarden.Admission.{
  Store, AdmissionResult, admitted, admission_required, invalid_identity, Fresh, AuthSession,
  InvitationRecord, is_open, audit, admit, readmit, admit_new, role_for_new,
}

abbrev pub is_admitted : AdmissionResult → Bool
is_admitted (admitted x) = true
is_admitted admission_required = false
is_admitted invalid_identity = false

-- An open invitation to that address, in normal form.
abbrev pub invites : Str → InvitationRecord → Bool
invites address i = i.email === address && is_open i

any-find :
    (p : InvitationRecord → Bool) (xs : List InvitationRecord) → is_some (find p xs) ≡ any p xs
any-find p [] = refl
any-find p (x ∷ xs) = ground (arith, any-find p xs)

module _ (d : Dates) (lower : Str → Str) where
  -- The rule of admission: a well-formed identity that is known, or is the bootstrap identity of an
  -- empty workspace, or has an open invitation.
  abbrev pub may_enter : ExternalIdentity → Store → Bool
  may_enter i s =
      validate_external_identity i
      && (is_some (get (key_of i) s.identities)
          || (length s.identities == 0
              && key_of i === identity_key s.bootstrap_issuer s.bootstrap_subject)
          || any (invites (normalize_email lower i.email)) (values s.invitations))

  role_for_new-is_some :
      (i : ExternalIdentity) (s : Store)
      → is_some (role_for_new d lower i s) ≡ (
          (length s.identities == 0
            && key_of i === identity_key s.bootstrap_issuer s.bootstrap_subject)
          || any (invites (normalize_email lower i.email)) (values s.invitations))
  unfolding role_for_new
  role_for_new-is_some i s =
      ground (arith, any-find (invites (normalize_email lower i.email)) (values s.invitations))

  -- An identity is admitted exactly if it is well formed and is known, or is the bootstrap identity of
  -- a workspace without members, or has an open invitation to its address; one that is not admitted
  -- changes nothing.
  pub admit-may_enter :
      (fresh : Fresh) (now : ℕ) (i : ExternalIdentity) (auth : Option AuthSession) (s : Store)
      → let r = admit d lower fresh now i auth s in
        (is_admitted r.0 ≡ may_enter i s) × ((is_admitted r.0 ≡ false) → r.1 ≡ s)
  unfolding admit readmit admit_new
  admit-may_enter fresh now i auth s = ground (arith, role_for_new-is_some i s)

-- How many invitations to that address are open.
abbrev pub count_open : Str → List InvitationRecord → ℕ
count_open address [] = 0
count_open address (i ∷ rest) =
    let n = count_open address rest in if invites address i then suc n else n

-- Each invitation stands under its own id.
abbrev pub AreKeyed : Dict InvitationRecord → Type 0
AreKeyed [] = Unit
AreKeyed ((k, i) ∷ m) = (k ≡ i.id) × (get k m ≡ none) × AreKeyed m

get-find :
    (address : Str) (m : Dict InvitationRecord) (i : InvitationRecord)
    → AreKeyed m
    → find (invites address) (values m) ≡ some i
    → get i.id m ≡ some i
unfolding get
get-find address [] i h f = cc
get-find address ((k, j) ∷ m) i h f = ground (arith, get-find address m i, ===_iff k i.id)

count_open-set :
    (address : Str) (i j : InvitationRecord) (m : Dict InvitationRecord)
    → get i.id m ≡ some i
    → invites address i ≡ true
    → invites address j ≡ false
    → count_open address (values (set i.id j m)) + 1 ≡ count_open address (values m)
unfolding get set
count_open-set address i j [] g p q = cc
count_open-set address i j ((k, w) ∷ m) g p q = ground (arith, count_open-set address i j m)

find-invites :
    (address : Str) (xs : List InvitationRecord) (i : InvitationRecord)
    → find (invites address) xs ≡ some i
    → invites address i ≡ true
find-invites address [] i f = cc
find-invites address (x ∷ xs) i f = ground (arith, find-invites address xs i)

module _ (d : Dates) (lower : Str → Str) where
  -- The identity opens an empty workspace.
  abbrev pub bootstraps : ExternalIdentity → Store → Bool
  bootstraps i s =
      length s.identities == 0 && key_of i === identity_key s.bootstrap_issuer s.bootstrap_subject

  role_for_new_invited :
      (i : ExternalIdentity) (s : Store) (q : Role × Option InvitationRecord)
      → bootstraps i s ≡ false
      → role_for_new d lower i s ≡ some q
      → (inv : InvitationRecord) × (find
            (invites (normalize_email lower i.email))
            (values s.invitations)
          ≡ some inv)
        × (q ≡ (viewer, some inv))
  unfolding role_for_new
  role_for_new_invited i s q b r =
      elim (Option-cases (find (invites (normalize_email lower i.email)) (values s.invitations))) [
        | inl f ↦ ground (arith, f)
        | inr (inv, f) ↦ (inv, f, ground (arith, f))
      ]

  -- A new identity that is admitted, and does not open an empty workspace, leaves exactly one open
  -- invitation to its address less than before, if each invitation stands under its own id.
  pub admit_single_use :
      (fresh : Fresh) (now : ℕ) (i : ExternalIdentity) (auth : Option AuthSession) (s : Store)
      → AreKeyed s.invitations
      → get (key_of i) s.identities ≡ none
      → bootstraps i s ≡ false
      → is_admitted (admit d lower fresh now i auth s).0 ≡ true
      → let address = normalize_email lower i.email in
        count_open address (values (admit d lower fresh now i auth s).1.invitations) + 1
        ≡ count_open address (values s.invitations)
  admit_single_use fresh now i auth s keyed g b a =
      elim (Bool-cases (validate_external_identity i)) [
        | inr bad ↦ unfold admit in cc (rw bad at a)
        | inl good ↦ elim (Option-cases (role_for_new d lower i s)) [
          | inl r ↦ unfold admit in cc (rw (good, g, r) at a)
          | inr (q, r) ↦
              let (inv, f, e) = role_for_new_invited i s q b r in
              unfold admit admit_new audit in
              rw (good, g, r, e)
                (count_open-set (normalize_email lower i.email) inv _ s.invitations
                  (get-find _ s.invitations inv keyed f)
                  (find-invites _ (values s.invitations) inv f) (ground arith))
        ]
      ]
