-- ===== src/Delivery/Budget.antt =====
-- How many previews are admitted.
use tracegarden.Prelude.{
  ℕ, suc, ◌+◌, ◌*◌, ◌≤◌, ◌≡◌, refl, sym, ap, ◌∙◌, ◌⊎◌, inl, inr, Bool, true, false, ◌&&◌, Option,
  List, [], ◌∷◌, arith, leb, if◌then◌else◌, Bool-cases, length, Str,
}
use tracegarden.Prelude.Result.{ok, ok_inj, Result-cases}
use tracegarden.Delivery.Doubles.{
  Double, finite, finite_inj, Limit, at_most, plus, exceeds, plus-exact,
}
use tracegarden.Prelude.Value.{max_safe_integer}
use tracegarden.Delivery.Previews.{PreviewPullRequest, preview_namespace, is_eligible}
use tracegarden.Delivery.Reserved.{HasSafeCluster, LeavesReserved, limits_of-LeavesReserved}
use tracegarden.Delivery.Admissions.{
  Reason, admitted, ineligible, max_environments, cpu_budget, memory_budget, pods_budget,
  PreviewAdmission, Limits, Used, reason_for, use_for, admit_all, unused, PreviewCapacity,
  limits_of, reconcile_preview_admissions, sort, insert,
}

abbrev pub is_admitted : Reason → Bool
is_admitted admitted = true
is_admitted _ = false

abbrev pub count_admitted : List PreviewAdmission → ℕ
count_admitted [] = 0
count_admitted (a ∷ rest) = let n = count_admitted rest in if is_admitted a.reason then 1 + n else n

-- That many previews of an amount have room beside what is used, below a safe limit. The numbers are
-- exact.
abbrev pub HasRoom : Double → Double → Limit → ℕ → Type 0
HasRoom used amount limit k =
    (x z : ℕ) × (used ≡ finite x)
    × (limit ≡ at_most (finite z))
    × (leb z max_safe_integer ≡ true)
    × (x ≤ z)
    × ((k ≡ 0) ⊎ ((y : ℕ) × (amount ≡ finite y) × (x + k * y ≤ z)))

-- That many previews of the size fit, beside what is used.
abbrev pub Fits : Limits → Used → ℕ → Type 0
Fits l u k =
    (u.count + k ≤ l.maximum)
    × HasRoom u.amounts.cpu l.per_preview.cpu l.aggregate.cpu k
    × HasRoom u.amounts.memory l.per_preview.memory l.aggregate.memory k
    × HasRoom u.amounts.pods l.per_preview.pods l.aggregate.pods k

HasRoom-plus :
    (used amount : Double) (limit : Limit)
    → HasRoom used amount limit 0
    → exceeds (plus used amount) limit ≡ false
    → HasRoom (plus used amount) amount limit 0
HasRoom-plus used amount limit (x, z, eu, el, s, le, b) h =
    let (y, ea, ep, le') = plus-exact x z amount s (rw (eu, el) at h) in
    (x + y, z, rw eu ep, el, s, le', inl refl)

at_most_inj : (n m : ℕ) → at_most (finite n) ≡ at_most (finite m) → n ≡ m
at_most_inj n m h = cc

room_lem : (x y z k : ℕ) → (x + y) + k * y ≤ z → x + (1 + k) * y ≤ z
room_lem x y z k h = omega (arith, h)

room_first : (x y z k : ℕ) → k ≡ 0 → x + y ≤ z → x + (1 + k) * y ≤ z
room_first x y z k e h = rw e (omega (arith, h))

HasRoom-suc :
    (used amount : Double) (limit : Limit) (k : ℕ)
    → HasRoom used amount limit 0
    → exceeds (plus used amount) limit ≡ false
    → HasRoom (plus used amount) amount limit k
    → HasRoom used amount limit (1 + k)
HasRoom-suc used amount limit k (x, z, eu, el, s, le, b) h (x', z', eu', el', s', le'', b') =
    let (y, ea, ep, le') = plus-exact x z amount s (rw (eu, el) at h) in
    let now : x' ≡ x + y = finite_inj x' (x + y) (sym eu' ∙ (rw eu ep)) in
    let here : z' ≡ z = at_most_inj z' z (sym el' ∙ el) in
    (
      x,
      z,
      eu,
      el,
      s,
      le,
      inr (
        y,
        ea,
        elim b' [
          | inl q ↦ room_first x y z k q le'
          | inr (y', ea', fits) ↦
              let same : y' ≡ y = finite_inj y' y (sym ea' ∙ ea) in
              room_lem x y z k (rw (now, here, same) at fits)
        ],
      ),
    )

reason_bools :
    (e m a b c : Bool)
    → (if e
        then if m
          then max_environments
          else if a
          then cpu_budget
          else if b
          then memory_budget
          else if c
          then pods_budget
          else admitted
        else ineligible)
      ≡ admitted
    → (m ≡ false) × (a ≡ false) × (b ≡ false) × (c ≡ false)
reason_bools e m a b c h = ground (arith, h)

not_full : (maximum count : ℕ) → leb maximum count ≡ false → count + 1 ≤ maximum
not_full maximum count h = ground (arith, h)

-- An admission has passed the four tests.
admitted_lem :
    (l : Limits) (u : Used) (p : PreviewPullRequest)
    → reason_for l u p ≡ admitted
    → (u.count + 1 ≤ l.maximum)
      × (exceeds (plus u.amounts.cpu l.per_preview.cpu) l.aggregate.cpu ≡ false)
      × (exceeds (plus u.amounts.memory l.per_preview.memory) l.aggregate.memory ≡ false)
      × (exceeds (plus u.amounts.pods l.per_preview.pods) l.aggregate.pods ≡ false)
unfolding reason_for
admitted_lem l u p h =
    let (m, a, b, c) = reason_bools (is_eligible p) (leb l.maximum u.count) _ _ _ h in
    (not_full l.maximum u.count m, a, b, c)

Fits-use_for :
    (l : Limits) (u : Used) (p : PreviewPullRequest) (k : ℕ)
    → reason_for l u p ≡ admitted
    → Fits l u 0
    → Fits l (use_for l admitted u) k
    → Fits l u (1 + k)
unfolding use_for
Fits-use_for l u p k h (n, a, b, c) (m, a', b', c') =
    let (t, x, y, z) = admitted_lem l u p h in
    (
      omega (arith, m),
      HasRoom-suc u.amounts.cpu l.per_preview.cpu l.aggregate.cpu k a x a',
      HasRoom-suc u.amounts.memory l.per_preview.memory l.aggregate.memory k b y b',
      HasRoom-suc u.amounts.pods l.per_preview.pods l.aggregate.pods k c z c',
    )

Fits-admitted :
    (l : Limits) (u : Used) (p : PreviewPullRequest)
    → reason_for l u p ≡ admitted
    → Fits l u 0
    → Fits l (use_for l admitted u) 0
unfolding use_for
Fits-admitted l u p h (n, a, b, c) =
    let (t, x, y, z) = admitted_lem l u p h in
    (
      omega (arith, t),
      HasRoom-plus u.amounts.cpu l.per_preview.cpu l.aggregate.cpu a x,
      HasRoom-plus u.amounts.memory l.per_preview.memory l.aggregate.memory b y,
      HasRoom-plus u.amounts.pods l.per_preview.pods l.aggregate.pods c z,
    )

-- The first answer, and the answers to the rest.
pub admit_all_cons :
    (l : Limits) (u : Used) (p : PreviewPullRequest) (ps : List PreviewPullRequest)
    (rs : List PreviewAdmission)
    → admit_all l u (p ∷ ps) ≡ ok rs
    → (namespace : Str) × (rest : List PreviewAdmission) × (preview_namespace p.number
        ≡ ok namespace)
      × (rs ≡ record { namespace = namespace; reason = reason_for l u p } ∷ rest)
      × (admit_all l (use_for l (reason_for l u p) u) ps ≡ ok rest)
unfolding admit_all
admit_all_cons l u p ps rs h = elim (Result-cases (preview_namespace p.number)) [
  | inl (e, n) ↦ absurd cc (rw (n, admit_all) at h)
  | inr (a, n) ↦ elim (Result-cases (admit_all l (use_for l (reason_for l u p) u) ps)) [
    | inl (e, r) ↦ absurd cc (rw (n, admit_all, r) at h)
    | inr (rest, r) ↦ (a, rest, n, sym (ok_inj _ rs (rw (n, admit_all, r) at h)), r)
  ]
]

pub Reason-cases :
    (r : Reason)
    → (r ≡ admitted) ⊎ ((is_admitted r ≡ false) × ((l : Limits) (u : Used) → use_for l r u ≡ u))
unfolding use_for
Reason-cases admitted = inl refl
Reason-cases ineligible = inr (refl, λ l u. refl)
Reason-cases max_environments = inr (refl, λ l u. refl)
Reason-cases cpu_budget = inr (refl, λ l u. refl)
Reason-cases memory_budget = inr (refl, λ l u. refl)
Reason-cases pods_budget = inr (refl, λ l u. refl)

admit_all-Fits :
    (l : Limits) (u : Used) (ps : List PreviewPullRequest) (rs : List PreviewAdmission)
    → admit_all l u ps ≡ ok rs
    → Fits l u 0
    → Fits l u (count_admitted rs) × (length rs ≡ length ps)
unfolding admit_all
admit_all-Fits l u [] rs h f = let e : [] ≡ rs = ok_inj [] rs h in rw (sym e) (f, refl)
admit_all-Fits l u (p ∷ ps) rs h f =
    let (a, rest, named, e, r) = admit_all_cons l u p ps rs h in
    elim (Reason-cases (reason_for l u p)) [
      | inl q ↦
          let (g, n) =
            admit_all-Fits l (use_for l admitted u) ps rest (rw q at r) (Fits-admitted l u p q f) in
          rw (e, q) (Fits-use_for l u p (count_admitted rest) q f g, ap suc n)
      | inr (q, same) ↦
          let (g, n) = admit_all-Fits l u ps rest (rw (same l u) at r) f in rw (e, q) (g, ap suc n)
    ]

length-insert :
    (p : PreviewPullRequest) (qs : List PreviewPullRequest) → length (insert p qs) ≡ suc (length qs)
unfolding insert
length-insert p [] = refl
length-insert p (q ∷ qs) = ground (arith, length-insert p qs)

length-sort : (ps : List PreviewPullRequest) → length (sort ps) ≡ length ps
unfolding sort
length-sort [] = refl
length-sort (p ∷ ps) = length-insert p (sort ps) ∙ ap suc (length-sort ps)

room_start :
    (cluster r z : ℕ) (limit : Limit) (amount : Double)
    → leb cluster max_safe_integer ≡ true
    → limit ≡ at_most (finite z)
    → z + r ≤ cluster
    → HasRoom (finite 0) amount limit 0
room_start cluster r z limit amount s e le =
    (0, z, refl, e, ground (arith, s, le), omega arith, inl refl)

unused-Fits :
    (number : Str → Option ℕ) (c : PreviewCapacity) (s : HasSafeCluster c) (l : Limits)
    → LeavesReserved number c s l
    → Fits l unused 0
unused-Fits number c s l
      ((r, z, er, e, le), (r', z', er', e', le'), (n, r'', z'', en, er'', e'', few, le''), m) =
    (
      omega arith,
      room_start s.cpu r z _ _ s.safe_cpu e le,
      room_start s.memory r' z' _ _ s.safe_memory e' le',
      room_start n r'' z'' _ _ few e'' le'',
    )

-- For any number of candidates for which there is an answer, if the processor and the memory of the
-- cluster are safe integers, the previews that are admitted are no more than the maximum of the
-- capacity, and together they need, exactly computed, no more processor, memory and pods than the
-- limits that are read from it, which leave the production reservation of the cluster alone; each
-- candidate gets an answer.
pub reconcile_preview_admissions-Fits :
    (number : Str → Option ℕ) (candidates : List PreviewPullRequest) (c : PreviewCapacity)
    (rs : List PreviewAdmission) (s : HasSafeCluster c)
    → reconcile_preview_admissions number candidates c ≡ ok rs
    → (l : Limits) × (limits_of number c ≡ ok l)
      × LeavesReserved number c s l
      × Fits l unused (count_admitted rs)
      × (length rs ≡ length candidates)
unfolding reconcile_preview_admissions
reconcile_preview_admissions-Fits number candidates c rs s h =
    elim (Bool-cases
      (leb c.max_preview_environments max_safe_integer && leb 1 c.max_preview_environments)) [
        | inr e ↦ absurd cc (rw e at h)
        | inl e ↦ elim (Result-cases (limits_of number c)) [
          | inl (x, q) ↦ absurd cc (rw (e, reconcile_preview_admissions, q) at h)
          | inr (l, q) ↦
              let leaves = limits_of-LeavesReserved number c s l q in
              let (f, n) =
                admit_all-Fits l unused (sort candidates) rs
                  (rw (e, reconcile_preview_admissions, q) at h)
                  (unused-Fits number c s l leaves) in
              (l, q, leaves, f, n ∙ length-sort candidates)
        ]
      ]
