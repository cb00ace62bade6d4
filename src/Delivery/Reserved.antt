-- ===== src/Delivery/Reserved.antt =====
-- The limits leave the production reservation alone.
use tracegarden.Prelude.{
  ℕ, ◌+◌, ◌-◌, ◌≤◌, ◌≡◌, refl, sym, ap, ◌∙◌, inl, inr, true, false, ◌&&◌, Option, arith, ltb, leb,
  leb→le, Bool-cases, Option-cases, Str, trim,
}
use tracegarden.Delivery.Doubles.{
  Double, finite, infinite, finite_inj, Limit, at_most, minimum, round_safe,
}
use tracegarden.Prelude.Value.{max_safe_integer}
use tracegarden.Prelude.Result.{◌>>=◌, Result, ok, err, ok_inj}
use tracegarden.Delivery.Quantities.{DeliveryError, parse_cpu, parse_memory, parse_pods}
use tracegarden.Delivery.Admissions.{PreviewCapacity, Limits, budget, limits_of}

-- A chain that succeeds has a first step that succeeds.
bind-ok :
    {A B : Type 0} (r : Result DeliveryError A) (f : A → Result DeliveryError B) (b : B)
    → (r >>= f) ≡ ok b
    → (a : A) × (r ≡ ok a) × (f a ≡ ok b)
bind-ok (ok a) f b h = (a, refl, h)
bind-ok (err e) f b h = absurd cc

minimum-le : (a : Double) (k : ℕ) → (z : ℕ) × (minimum a (finite k) ≡ finite z) × (z ≤ k)
minimum-le infinite k = (k, refl, omega arith)
minimum-le (finite a) k = elim (Bool-cases (leb a k)) [
  | inl t ↦ rw t (a, refl, leb→le a k t)
  | inr t ↦ rw t (k, refl, omega arith)
]

same_le : (c p r z : ℕ) → p ≡ r → z + r ≤ c → z + p ≤ c
same_le c p r z e h = omega (arith, e, h)

sub_safe : (c r : ℕ) → leb c max_safe_integer ≡ true → leb (c - r) max_safe_integer ≡ true
sub_safe c r h = ground (arith, h)

sub_le : (c r z : ℕ) → ltb c r ≡ false → z ≤ c - r → z + r ≤ c
sub_le c r z e h = ground (arith, e, h)

-- The budget of a cluster whose amount is safe.
budget-bound :
    (aggregate : Double) (cluster : ℕ) (reserved : Double) (n : Limit)
    → leb cluster max_safe_integer ≡ true
    → budget aggregate (finite cluster) reserved ≡ ok n
    → (r z : ℕ) × (reserved ≡ finite r) × (n ≡ at_most (finite z)) × (z + r ≤ cluster)
unfolding budget
budget-bound aggregate cluster infinite n s h = absurd cc
budget-bound aggregate cluster (finite r) n s h = elim (Bool-cases (ltb cluster r)) [
  | inl e ↦ absurd cc (rw e at h)
  | inr e ↦
      let safe : leb (cluster - r) max_safe_integer ≡ true = sub_safe cluster r s in
      let (z, q, le) = minimum-le aggregate (cluster - r) in
      let same = ok_inj _ n (rw (e, round_safe (cluster - r) safe, q) at h) in
      (r, z, refl, sym same, sub_le cluster r z e le)
]

parse_pods-safe :
    (number : Str → Option ℕ) (value : Str) (n : ℕ)
    → parse_pods number value ≡ ok n
    → leb n max_safe_integer ≡ true
unfolding parse_pods
parse_pods-safe number value n h = elim (Option-cases (number (trim value))) [
  | inl e ↦ absurd cc (rw (e, parse_pods) at h)
  | inr (m, e) ↦ elim (Bool-cases (leb m max_safe_integer && leb 1 m)) [
    | inr t ↦ absurd cc (rw (e, parse_pods, t) at h)
    | inl t ↦
        let same : m ≡ n = ok_inj m n (rw (e, parse_pods, t) at h) in
        rw (← same) (ground (arith, t))
  ]
]

-- The processor and the memory of the cluster, which are safe integers.
pub record HasSafeCluster (c : PreviewCapacity) : Type 0 where
  pub cpu : ℕ
  pub memory : ℕ
  pub reads_cpu : parse_cpu c.cluster.cpu ≡ ok (finite cpu)
  pub reads_memory : parse_memory c.cluster.memory ≡ ok (finite memory)
  pub safe_cpu : leb cpu max_safe_integer ≡ true
  pub safe_memory : leb memory max_safe_integer ≡ true

-- What is reserved and what may be used is no more than there is.
abbrev pub Leaves : ℕ → Result DeliveryError Double → Limit → Type 0
Leaves cluster reserved limit =
    (r z : ℕ) × (reserved ≡ ok (finite r)) × (limit ≡ at_most (finite z)) × (z + r ≤ cluster)

-- The limits that are read from a capacity leave its production reservation alone.
abbrev pub LeavesReserved :
    (Str → Option ℕ) → (c : PreviewCapacity) → HasSafeCluster c → Limits → Type 0
LeavesReserved number c s l =
    Leaves s.cpu (parse_cpu c.production_reservation.cpu) l.aggregate.cpu
    × Leaves s.memory (parse_memory c.production_reservation.memory) l.aggregate.memory
    × ((pods reserved z : ℕ) × (parse_pods number c.cluster.pods ≡ ok pods)
        × (parse_pods number c.production_reservation.pods ≡ ok reserved)
        × (l.aggregate.pods ≡ at_most (finite z))
        × (leb pods max_safe_integer ≡ true)
        × (z + reserved ≤ pods))
    × (l.maximum ≡ c.max_preview_environments)

leaves :
    (aggregate c0 reserved : Double) (cluster : ℕ) (n : Limit) (rc : Result DeliveryError Double)
    → ◌≡◌ {A = Result DeliveryError Double} (ok c0) (ok (finite cluster))
    → leb cluster max_safe_integer ≡ true
    → rc ≡ ok reserved
    → budget aggregate c0 reserved ≡ ok n
    → Leaves cluster rc n
leaves aggregate c0 reserved cluster n rc e s q h =
    let same : c0 ≡ finite cluster = ok_inj c0 (finite cluster) e in
    let (r, z, er, en, le) = budget-bound aggregate cluster reserved n s (rw same at h) in
    (r, z, q ∙ ap (λ x. ok x) er, en, le)

pub limits_of-LeavesReserved :
    (number : Str → Option ℕ) (c : PreviewCapacity) (s : HasSafeCluster c) (l : Limits)
    → limits_of number c ≡ ok l
    → LeavesReserved number c s l
unfolding limits_of
limits_of-LeavesReserved number c s l h =
    let (cc0, h0, k0) = bind-ok (parse_cpu c.cluster.cpu) _ l h in
    let (cm, h1, k1) = bind-ok (parse_memory c.cluster.memory) _ l k0 in
    let (rc, h2, k2) = bind-ok (parse_cpu c.production_reservation.cpu) _ l k1 in
    let (rm, h3, k3) = bind-ok (parse_memory c.production_reservation.memory) _ l k2 in
    let (ac, h4, k4) = bind-ok (parse_cpu c.aggregate.cpu) _ l k3 in
    let (am, h5, k5) = bind-ok (parse_memory c.aggregate.memory) _ l k4 in
    let (cp, h6, k6) = bind-ok (parse_pods number c.cluster.pods) _ l k5 in
    let (rp, h7, k7) = bind-ok (parse_pods number c.production_reservation.pods) _ l k6 in
    let (ap0, h8, k8) = bind-ok (parse_pods number c.aggregate.pods) _ l k7 in
    let (bc, h9, k9) = bind-ok (budget ac cc0 rc) _ l k8 in
    let (bm, h10, k10) = bind-ok (budget am cm rm) _ l k9 in
    let (bp, h11, k11) = bind-ok (budget (finite ap0) (finite cp) (finite rp)) _ l k10 in
    let (pc, h12, k12) = bind-ok (parse_cpu c.per_preview.cpu) _ l k11 in
    let (pm, h13, k13) = bind-ok (parse_memory c.per_preview.memory) _ l k12 in
    let (pp, h14, k14) = bind-ok (parse_pods number c.per_preview.pods) _ l k13 in
    let same = ok_inj _ l k14 in
    let few = parse_pods-safe number c.cluster.pods cp h6 in
    let (r, z, er, en, le) = budget-bound (finite ap0) cp (finite rp) bp few h11 in
    let r_same : rp ≡ r = finite_inj rp r er in
    rw (sym same) (
      leaves ac cc0 rc s.cpu bc _ (sym h0 ∙ s.reads_cpu) s.safe_cpu h2 h9,
      leaves am cm rm s.memory bm _ (sym h1 ∙ s.reads_memory) s.safe_memory h3 h10,
      (cp, rp, z, h6, h7, en, few, same_le cp rp r z r_same le),
      refl,
    )
