-- ===== src/Delivery/Justified.antt =====
-- Each action on the preview environments has its reason.
use tracegarden.Prelude.{
  ℕ, ◌≡◌, refl, sym, ◌∙◌, subst, inl, inr, Bool, true, false, not, ◌&&◌, List, [], ◌∷◌, ◌++◌, arith,
  if◌then◌else◌, Bool-cases, All, All-append, Str, ◌===◌, ===_refl, In,
}
use tracegarden.Prelude.Result.{ok, ok_inj, Result-cases}
use tracegarden.Delivery.Previews.{
  PreviewPullRequest, is_eligible, preview_namespace, is_preview_number,
}
use tracegarden.Delivery.Environments.{
  Reconciliation, Cause, closed, draft, orphan, eligible, create, delete, holds, action_for,
  actions_for, is_preview, orphans, reconcile_preview_environments,
}

-- The pull request has the namespace.
abbrev pub HasNamespace : Str → PreviewPullRequest → Type 0
HasNamespace n p = preview_namespace p.number ≡ ok n

-- What must be so for a cause: a pull request of the namespace is closed, or is open and a draft; or no
-- pull request has the namespace.
abbrev pub IsCause : List PreviewPullRequest → Str → Cause → Type 0
IsCause pull_requests n closed =
    (p : PreviewPullRequest) × In p pull_requests × (p.is_open ≡ false) × HasNamespace n p
IsCause pull_requests n draft =
    (p : PreviewPullRequest) × In p pull_requests
    × (p.is_open ≡ true)
    × (p.draft ≡ true)
    × HasNamespace n p
IsCause pull_requests n orphan = (p : PreviewPullRequest) → In p pull_requests → ¬ HasNamespace n p
IsCause pull_requests n eligible = ⊥

-- A creation is for a namespace that is not there, of an open pull request that is no draft; a deletion
-- is of a preview that is there, and its cause holds.
abbrev pub IsJustified : List PreviewPullRequest → List Str → Reconciliation → Type 0
IsJustified pull_requests existing (create n) =
    (holds existing n ≡ false)
    × ((p : PreviewPullRequest) × In p pull_requests
        × (p.is_open ≡ true)
        × (p.draft ≡ false)
        × HasNamespace n p)
IsJustified pull_requests existing (delete n cause) =
    (holds existing n ≡ true) × (is_preview n ≡ true) × IsCause pull_requests n cause

preview_namespace-is_preview :
    (n : ℕ) (namespace : Str) → preview_namespace n ≡ ok namespace → is_preview namespace ≡ true
unfolding preview_namespace ◌===◌
preview_namespace-is_preview n namespace h = elim (Bool-cases (is_preview_number n)) [
  | inr e ↦ absurd cc (rw e at h)
  | inl e ↦ subst (λ s. is_preview s ≡ true) (ok_inj _ namespace (rw e at h)) refl
]

-- The actions of the first loop: no orphans.
abbrev IsOwn : List PreviewPullRequest → List Str → Reconciliation → Type 0
IsOwn pull_requests existing (delete n orphan) = ⊥
IsOwn pull_requests existing action = IsJustified pull_requests existing action

IsOwn-more :
    (p : PreviewPullRequest) (ps : List PreviewPullRequest) (existing : List Str)
    (action : Reconciliation)
    → IsOwn ps existing action
    → IsOwn (p ∷ ps) existing action
IsOwn-more p ps existing (create n) (f, (q, m, o, d, s)) = (f, (q, inr m, o, d, s))
IsOwn-more p ps existing (delete n closed) (h, v, (q, m, o, s)) = (h, v, (q, inr m, o, s))
IsOwn-more p ps existing (delete n draft) (h, v, (q, m, o, d, s)) = (h, v, (q, inr m, o, d, s))
IsOwn-more p ps existing (delete n orphan) j = absurd j
IsOwn-more p ps existing (delete n eligible) (h, v, j) = absurd j

All-IsOwn-more :
    (p : PreviewPullRequest) (ps : List PreviewPullRequest) (existing : List Str)
    (actions : List Reconciliation)
    → All (IsOwn ps existing) actions
    → All (IsOwn (p ∷ ps) existing) actions
All-IsOwn-more p ps existing [] a = tt
All-IsOwn-more p ps existing (x ∷ rest) (j, a) =
    (IsOwn-more p ps existing x j, All-IsOwn-more p ps existing rest a)

IsOwn-IsJustified :
    (ps : List PreviewPullRequest) (existing : List Str) (actions : List Reconciliation)
    → All (IsOwn ps existing) actions
    → All (IsJustified ps existing) actions
IsOwn-IsJustified ps existing [] a = tt
IsOwn-IsJustified ps existing (create n ∷ rest) (j, a) = (j, IsOwn-IsJustified ps existing rest a)
IsOwn-IsJustified ps existing (delete n closed ∷ rest) (j, a) =
    (j, IsOwn-IsJustified ps existing rest a)
IsOwn-IsJustified ps existing (delete n draft ∷ rest) (j, a) =
    (j, IsOwn-IsJustified ps existing rest a)
IsOwn-IsJustified ps existing (delete n orphan ∷ rest) (j, a) = absurd j
IsOwn-IsJustified ps existing (delete n eligible ∷ rest) (j, a) =
    (j, IsOwn-IsJustified ps existing rest a)

is_eligible-parts :
    (p : PreviewPullRequest) → is_eligible p ≡ true → (p.is_open ≡ true) × (p.draft ≡ false)
is_eligible-parts p h = ground (arith, h)

ineligible_open :
    (p : PreviewPullRequest) → is_eligible p ≡ false → p.is_open ≡ true → p.draft ≡ true
ineligible_open p h o = ground (arith, h, o)

cause_of-IsOwn :
    (existing : List Str) (p : PreviewPullRequest) (ps : List PreviewPullRequest) (n : Str)
    (is_open : Bool)
    → p.is_open ≡ is_open
    → (holds existing n ≡ true) × (is_preview n ≡ true)
    → (p.is_open ≡ true → p.draft ≡ true)
    → HasNamespace n p
    → IsOwn (p ∷ ps) existing (delete n (if is_open then draft else closed))
cause_of-IsOwn existing p ps n true o (t, v) d h = (t, v, (p, inl refl, o, d o, h))
cause_of-IsOwn existing p ps n false o (t, v) d h = (t, v, (p, inl refl, o, h))

action_for-IsOwn :
    (existing : List Str) (p : PreviewPullRequest) (ps : List PreviewPullRequest) (namespace : Str)
    → preview_namespace p.number ≡ ok namespace
    → All (IsOwn (p ∷ ps) existing) (action_for existing p namespace)
action_for-IsOwn existing p ps namespace h =
    let v = preview_namespace-is_preview p.number namespace h in
    elim (Bool-cases (is_eligible p)) [
      | inl e ↦
          let (o, d) = is_eligible-parts p e in
          elim (Bool-cases (holds existing namespace)) [
            | inl t ↦ rw (e, t) tt
            | inr t ↦ rw (e, t) ((t, (p, inl refl, o, d, h)), tt)
          ]
      | inr e ↦ elim (Bool-cases (holds existing namespace)) [
        | inr t ↦ rw (e, t) tt
        | inl t ↦
            rw (e, t)
              (
                cause_of-IsOwn existing p ps namespace p.is_open refl (t, v) (ineligible_open p e)
                    h,
                tt,
              )
      ]
    ]

-- The first loop observes the namespace of every pull request.
abbrev Observes : List PreviewPullRequest → List Str → Type 0
Observes ps observed =
    (p : PreviewPullRequest) (n : Str) → In p ps → HasNamespace n p → holds observed n ≡ true

actions_for-IsOwn :
    (existing : List Str) (pull_requests : List PreviewPullRequest)
    (r : List Reconciliation × List Str)
    → actions_for existing pull_requests ≡ ok r
    → All (IsOwn pull_requests existing) r.0 × Observes pull_requests r.1
unfolding actions_for
actions_for-IsOwn existing [] r h =
    let e : ([], []) ≡ r = ok_inj _ r h in rw (sym e) (tt, λ p n m q. absurd m)
actions_for-IsOwn existing (p ∷ ps) r h = elim (Result-cases (preview_namespace p.number)) [
  | inl (e, n) ↦ absurd cc (rw (n, actions_for) at h)
  | inr (a, n) ↦ elim (Result-cases (actions_for existing ps)) [
    | inl (e, q) ↦ absurd cc (rw (n, actions_for, q) at h)
    | inr (x, q) ↦
        let e = ok_inj (action_for existing p a ++ x.0, a ∷ x.1) r (rw (n, actions_for, q) at h) in
        let (own, observes) = actions_for-IsOwn existing ps x q in
        rw (sym e) (
          All-append (IsOwn (p ∷ ps) existing) (action_for existing p a) x.0
              (action_for-IsOwn existing p ps a n) (All-IsOwn-more p ps existing x.0 own),
          λ y m i s. elim i [
            | inl same ↦
                let found : a ≡ m = ok_inj a m (sym n ∙ (subst (HasNamespace m) same s)) in
                rw found (rw ===_refl refl)
            | inr later ↦ let seen = observes y m later s in ground (arith, seen)
          ],
        )
  ]
]

true-false : (b : Bool) → b ≡ true → ¬ (b ≡ false)
true-false b t f = cc

orphans-IsJustified :
    (pull_requests : List PreviewPullRequest) (observed all_existing existing : List Str)
    → Observes pull_requests observed
    → ((n : Str) → holds existing n ≡ true → holds all_existing n ≡ true)
    → All (IsJustified pull_requests all_existing) (orphans observed existing)
unfolding orphans
orphans-IsJustified pull_requests observed every [] seen sub = tt
orphans-IsJustified pull_requests observed every (n ∷ rest) seen sub =
    let later =
      orphans-IsJustified pull_requests observed every rest seen
        (λ m h. sub m (ground (arith, h))) in
    elim (Bool-cases (is_preview n && not (holds observed n))) [
      | inl t ↦
          let absent : holds observed n ≡ false = ground (arith, t) in
          rw t (
            (
              sub n (rw ===_refl refl),
              ground (arith, t),
              λ p m s. true-false (holds observed n) (seen p n m s) absent,
            ),
            later,
          )
      | inr t ↦ rw t later
    ]

-- Every action of a reconciliation is justified: it creates a namespace that is not there, for an open
-- pull request that is no draft, or deletes one that is there and is named as a preview's, since a
-- pull request of that namespace is closed, or is a draft, or, for an orphan, since none of the pull
-- requests has it.
pub reconcile_preview_environments-IsJustified :
    (pull_requests : List PreviewPullRequest) (existing : List Str) (actions : List Reconciliation)
    → reconcile_preview_environments pull_requests existing ≡ ok actions
    → All (IsJustified pull_requests existing) actions
unfolding reconcile_preview_environments
reconcile_preview_environments-IsJustified pull_requests existing actions h =
    elim (Result-cases (actions_for existing pull_requests)) [
      | inl (e, q) ↦ absurd cc (rw (q, reconcile_preview_environments) at h)
      | inr (x, q) ↦
          let e =
            ok_inj (x.0 ++ orphans x.1 existing) actions
              (rw (q, reconcile_preview_environments) at h) in
          let (own, observes) = actions_for-IsOwn existing pull_requests x q in
          rw (sym e) (
            All-append (IsJustified pull_requests existing) x.0 (orphans x.1 existing)
              (IsOwn-IsJustified pull_requests existing x.0 own)
              (orphans-IsJustified pull_requests x.1 existing existing observes (λ n t. t)))
    ]
