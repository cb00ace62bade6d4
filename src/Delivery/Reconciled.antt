-- ===== src/Delivery/Reconciled.antt =====
-- What the answers of the delivery rules satisfy.
use mathlib.Core.List.{Perm}
use mathlib.Core.List.Perm
use tracegarden.Prelude.{
  ℕ, ◌≤◌, ◌≡◌, refl, sym, inl, inr, Bool, true, false, not, ◌&&◌, ◌||◌, Option, List, [], ◌∷◌,
  arith, leb, if◌then◌else◌, leb→le, Bool-cases, all, All, Str, js, ◌===◌, trim, truthy,
}
use tracegarden.Prelude.Result.{ok, ok_inj, is_ok, Result-cases}
use tracegarden.Prelude.Value.{max_safe_integer}
use tracegarden.Delivery.Quantities.{is_git_commit, is_digest}
use tracegarden.Delivery.Previews.{PreviewPullRequest, preview_namespace}
use tracegarden.Delivery.Admissions.{
  PreviewAdmission, PreviewCapacity, Limits, Used, Reason, admitted, ineligible, max_environments,
  cpu_budget, memory_budget, pods_budget, reason_for, use_for, sort, insert, admit_all, unused,
  limits_of, reconcile_preview_admissions,
}
use tracegarden.Delivery.Promotion.{
  Image, PromotionInput, PromotionProposal, images_of, check_image, check_images, propose,
  create_promotion_proposal,
}
use tracegarden.Delivery.Budget.{admit_all_cons}
use tracegarden.Delivery.Refusals.{FirstCome, admit_all-FirstCome}

-- The numbers do not fall.
abbrev pub InOrder : List PreviewPullRequest → Type 0
InOrder [] = Unit
InOrder (p ∷ ps) = All (λ q. p.number ≤ q.number) ps × InOrder ps

insert-All :
    (n : ℕ) (p : PreviewPullRequest) (ps : List PreviewPullRequest)
    → n ≤ p.number
    → All (λ q. n ≤ q.number) ps
    → All (λ q. n ≤ q.number) (insert p ps)
unfolding insert
insert-All n p [] h a = (h, tt)
insert-All n p (q ∷ qs) h a = elim (Bool-cases (leb p.number q.number)) [
  | inl e ↦ rw e (h, a)
  | inr e ↦ rw e (a.0, insert-All n p qs h a.1)
]

All-le :
    (n m : ℕ) (ps : List PreviewPullRequest)
    → n ≤ m
    → All (λ q. m ≤ q.number) ps
    → All (λ q. n ≤ q.number) ps
All-le n m [] h a = tt
All-le n m (p ∷ ps) h a = (omega (arith, h, a.0), All-le n m ps h a.1)

insert-InOrder :
    (p : PreviewPullRequest) (ps : List PreviewPullRequest) → InOrder ps → InOrder (insert p ps)
unfolding insert
insert-InOrder p [] h = (tt, tt)
insert-InOrder p (q ∷ qs) h = elim (Bool-cases (leb p.number q.number)) [
  | inl e ↦ rw e (
    (leb→le p.number q.number e, All-le p.number q.number qs (leb→le p.number q.number e) h.0),
    h,
  )
  | inr e ↦ rw e (insert-All q.number p qs (ground (arith, e)) h.0, insert-InOrder p qs h.1)
]

sort-InOrder : (ps : List PreviewPullRequest) → InOrder (sort ps)
unfolding sort
sort-InOrder [] = tt
sort-InOrder (p ∷ ps) = insert-InOrder p (sort ps) (sort-InOrder ps)

insert-Perm : (p : PreviewPullRequest) (qs : List PreviewPullRequest) → Perm (insert p qs) (p ∷ qs)
unfolding insert
insert-Perm p [] = Perm.refl _
insert-Perm p (q ∷ qs) = elim (Bool-cases (leb p.number q.number)) [
  | inl e ↦ rw e (Perm.refl _)
  | inr e ↦ rw e (Perm.trans (Perm.cons q (insert-Perm p qs)) (Perm.swap p q qs))
]

sort-Perm : (ps : List PreviewPullRequest) → Perm (sort ps) ps
unfolding sort
sort-Perm [] = Perm.refl _
sort-Perm (p ∷ ps) = Perm.trans (insert-Perm p (sort ps)) (Perm.cons p (sort-Perm ps))

abbrev pub is_ineligible : Reason → Bool
is_ineligible ineligible = true
is_ineligible _ = false

-- An answer to each candidate in turn: under its namespace, and it is ineligible exactly if the pull
-- request is not open or is a draft.
abbrev pub Answers : List PreviewPullRequest → List PreviewAdmission → Type 0
Answers [] [] = Unit
Answers [] (a ∷ rs) = ⊥
Answers (p ∷ ps) [] = ⊥
Answers (p ∷ ps) (a ∷ rs) =
    (preview_namespace p.number ≡ ok a.namespace)
    × (is_ineligible a.reason ≡ (not p.is_open || p.draft))
    × Answers ps rs

ineligible_bools :
    (o f m a b c : Bool)
    → is_ineligible (
        if o && not f
        then if m
          then max_environments
          else if a
          then cpu_budget
          else if b
          then memory_budget
          else if c
          then pods_budget
          else admitted
        else ineligible)
      ≡ (not o || f)
ineligible_bools o f m a b c = ground arith

reason_for-ineligible :
    (l : Limits) (u : Used) (p : PreviewPullRequest)
    → is_ineligible (reason_for l u p) ≡ (not p.is_open || p.draft)
unfolding reason_for
reason_for-ineligible l u p = ineligible_bools p.is_open p.draft (leb l.maximum u.count) _ _ _

admit_all-Answers :
    (l : Limits) (u : Used) (ps : List PreviewPullRequest) (rs : List PreviewAdmission)
    → admit_all l u ps ≡ ok rs
    → Answers ps rs
unfolding admit_all
admit_all-Answers l u [] rs h = let e : [] ≡ rs = ok_inj [] rs h in rw (sym e) tt
admit_all-Answers l u (p ∷ ps) rs h =
    let (n, rest, named, e, r) = admit_all_cons l u p ps rs h in
    rw e (
      named,
      reason_for-ineligible l u p,
      admit_all-Answers l (use_for l (reason_for l u p) u) ps rest r,
    )

-- The answers are to the candidates, each once, in the order of their numbers: each is under the
-- namespace of its candidate, and is ineligible exactly if that is not open or is a draft; and behind
-- the first candidate that is refused for want of room no other is admitted.
pub reconcile_preview_admissions-FirstCome :
    (number : Str → Option ℕ) (candidates : List PreviewPullRequest) (c : PreviewCapacity)
    (rs : List PreviewAdmission)
    → reconcile_preview_admissions number candidates c ≡ ok rs
    → (ordered : List PreviewPullRequest) × Perm ordered candidates
      × InOrder ordered
      × Answers ordered rs
      × FirstCome rs
unfolding reconcile_preview_admissions
reconcile_preview_admissions-FirstCome number candidates c rs h =
    elim (Bool-cases
      (leb c.max_preview_environments max_safe_integer && leb 1 c.max_preview_environments)) [
        | inr e ↦ absurd cc (rw e at h)
        | inl e ↦ elim (Result-cases (limits_of number c)) [
          | inl (x, q) ↦ absurd cc (rw (e, reconcile_preview_admissions, q) at h)
          | inr (l, q) ↦
              let g = rw (e, reconcile_preview_admissions, q) at h in
              (
                sort candidates,
                sort-Perm candidates,
                sort-InOrder candidates,
                admit_all-Answers l unused (sort candidates) rs g,
                admit_all-FirstCome l unused (sort candidates) rs g,
              )
        ]
      ]

-- What a release must have: a full commit, the approval of production by a named reviewer, a
-- reviewable change, and for each component a repository and a digest.
abbrev pub is_promotable : PromotionInput → Bool
is_promotable input =
    is_git_commit input.release_commit
    && (input.environment === js "production" && input.approved && truthy (trim input.reviewer))
    && (input.pull_request_required
        && truthy (trim input.gitops_repository)
        && truthy (trim input.path))
    && all (λ i. truthy (trim i.repository) && is_digest i.digest) (images_of input.images)

check_images-all :
    (images : List Image)
    → is_ok (check_images images)
      ≡ all (λ i. truthy (trim i.repository) && is_digest i.digest) images
unfolding check_images check_image
check_images-all [] = refl
check_images-all (i ∷ rest) = ground (arith, check_images-all rest)

-- A proposal is made exactly for a release with a full commit, the approval of production by a named
-- reviewer, a reviewable change, and for each component a repository and a digest; it is then the
-- one that pins each component by its digest.
pub create_promotion_proposal-is_promotable :
    (input : PromotionInput)
    → (is_ok (create_promotion_proposal input) ≡ is_promotable input)
      × ((p : PromotionProposal) → create_promotion_proposal input ≡ ok p → p ≡ propose input)
unfolding create_promotion_proposal
create_promotion_proposal-is_promotable input =
    (ground (arith, check_images-all (images_of input.images)), λ p h. ground (arith, h))
