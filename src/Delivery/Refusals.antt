-- ===== src/Delivery/Refusals.antt =====
-- Behind a refusal for want of room nothing is admitted.
use tracegarden.Prelude.{◌≡◌, refl, sym, inl, inr, Bool, true, false, List, [], ◌∷◌, arith}
use tracegarden.Prelude.Result.{ok, ok_inj}
use tracegarden.Delivery.Previews.{PreviewPullRequest}
use tracegarden.Delivery.Admissions.{
  Reason, admitted, ineligible, PreviewAdmission, Limits, Used, reason_for, use_for, admit_all,
}
use tracegarden.Delivery.Budget.{count_admitted, is_admitted, admit_all_cons, Reason-cases}

-- A refusal for want of room.
abbrev pub is_full : Reason → Bool
is_full admitted = false
is_full ineligible = false
is_full _ = true

-- Behind a refusal for want of room nothing is admitted.
abbrev pub FirstCome : List PreviewAdmission → Type 0
FirstCome [] = Unit
FirstCome (a ∷ rest) = (is_full a.reason ≡ true → count_admitted rest ≡ 0) × FirstCome rest

-- Once there is no room for one preview there is none for any other.
reason_for-full :
    (l : Limits) (u : Used) (p q : PreviewPullRequest)
    → is_full (reason_for l u p) ≡ true
    → is_admitted (reason_for l u q) ≡ false
unfolding reason_for
reason_for-full l u p q h = ground (arith, h)

full-count :
    (l : Limits) (u : Used) (p : PreviewPullRequest) (ps : List PreviewPullRequest)
    (rs : List PreviewAdmission)
    → is_full (reason_for l u p) ≡ true
    → admit_all l u ps ≡ ok rs
    → count_admitted rs ≡ 0
unfolding admit_all
full-count l u p [] rs f h = let e : [] ≡ rs = ok_inj [] rs h in rw (sym e) refl
full-count l u p (q ∷ ps) rs f h =
    let (a, rest, named, e, r) = admit_all_cons l u q ps rs h in
    let refused = reason_for-full l u p q f in
    elim (Reason-cases (reason_for l u q)) [
      | inl t ↦ absurd (ground (arith, refused, rw t at refused))
      | inr (t, same) ↦ rw (e, t) (full-count l u p ps rest f (rw (same l u) at r))
    ]

pub admit_all-FirstCome :
    (l : Limits) (u : Used) (ps : List PreviewPullRequest) (rs : List PreviewAdmission)
    → admit_all l u ps ≡ ok rs
    → FirstCome rs
unfolding admit_all
admit_all-FirstCome l u [] rs h = let e : [] ≡ rs = ok_inj [] rs h in rw (sym e) tt
admit_all-FirstCome l u (p ∷ ps) rs h =
    let (a, rest, named, e, r) = admit_all_cons l u p ps rs h in
    let later = admit_all-FirstCome l (use_for l (reason_for l u p) u) ps rest r in
    elim (Reason-cases (reason_for l u p)) [
      | inl q ↦ rw (e, q) ((λ f. absurd cc), later)
      | inr (q, same) ↦ rw e ((λ f. full-count l u p ps rest f (rw (same l u) at r)), later)
    ]
