-- ===== src/Delivery/Admissions.antt =====
-- `reconcilePreviewAdmissions` of packages/delivery/src/index.ts.
use tracegarden.Prelude.{ℕ, ◌+◌, ◌-◌, ◌&&◌, Option, List, [], ◌∷◌, ltb, leb, if◌then◌else◌, Str}
use tracegarden.Prelude.Result.{Result, ok, err, ◌>>=◌}
use tracegarden.Delivery.Doubles.{
  Double, finite, infinite, Limit, at_most, unlimited, round, plus, exceeds, minimum,
}
use tracegarden.Prelude.Value.{max_safe_integer}
use tracegarden.Delivery.Quantities.{
  DeliveryError, bad_maximum, reservation_exceeds, parse_cpu, parse_memory, parse_pods,
}
use tracegarden.Delivery.Previews.{PreviewPullRequest, is_eligible, preview_namespace}

pub record Quantity : Type 0 where
  pub cpu : Str
  pub memory : Str
  pub pods : Str

pub record PreviewCapacity : Type 0 where
  pub max_preview_environments : ℕ
  pub aggregate : Quantity
  pub cluster : Quantity
  pub production_reservation : Quantity
  pub per_preview : Quantity

pub data Reason : Type 0 where
  admitted ineligible max_environments cpu_budget memory_budget pods_budget : Reason

pub record PreviewAdmission : Type 0 where
  pub namespace : Str
  pub reason : Reason

-- Amounts of processor, memory and pods.
pub record Amounts : Type 0 where
  pub cpu : Double
  pub memory : Double
  pub pods : Double

-- What may be used of them.
pub record Allowed : Type 0 where
  pub cpu : Limit
  pub memory : Limit
  pub pods : Limit

-- What one loop needs: how many previews, within which amounts, of which size.
pub record Limits : Type 0 where
  pub maximum : ℕ
  pub aggregate : Allowed
  pub per_preview : Amounts

pub record Used : Type 0 where
  pub count : ℕ
  pub amounts : Amounts

-- A stable sort by number.
unfoldable pub insert : PreviewPullRequest → List PreviewPullRequest → List PreviewPullRequest
insert p [] = p ∷ []
insert p (q ∷ qs) = let rest = insert p qs in if leb p.number q.number then p ∷ q ∷ qs else q ∷ rest

unfoldable pub sort : List PreviewPullRequest → List PreviewPullRequest
unfolding insert
sort [] = []
sort (p ∷ ps) = insert p (sort ps)

unfoldable pub reason_for : Limits → Used → PreviewPullRequest → Reason
unfolding plus exceeds
reason_for l u p =
    if is_eligible p
    then if leb l.maximum u.count
      then max_environments
      else if exceeds (plus u.amounts.cpu l.per_preview.cpu) l.aggregate.cpu
      then cpu_budget
      else if exceeds (plus u.amounts.memory l.per_preview.memory) l.aggregate.memory
      then memory_budget
      else if exceeds (plus u.amounts.pods l.per_preview.pods) l.aggregate.pods
      then pods_budget
      else admitted
    else ineligible

-- What is used after the answer to a candidate.
unfoldable pub use_for : Limits → Reason → Used → Used
unfolding plus
use_for l admitted u = record {
  count = u.count + 1;
  amounts = record {
    cpu = plus u.amounts.cpu l.per_preview.cpu;
    memory = plus u.amounts.memory l.per_preview.memory;
    pods = plus u.amounts.pods l.per_preview.pods;
  };
}
use_for l _ u = u

abbrev pub prepend :
    Str
    → Reason
    → Result DeliveryError (List PreviewAdmission)
    → Result DeliveryError (List PreviewAdmission)
prepend namespace reason (ok rest) = ok (record { namespace = namespace; reason = reason } ∷ rest)
prepend namespace reason (err e) = err e

unfoldable pub admit_all :
    Limits → Used → List PreviewPullRequest → Result DeliveryError (List PreviewAdmission)
unfolding reason_for use_for
admit_all l u [] = ok []
admit_all l u (p ∷ ps) =
    let rest = admit_all l (use_for l (reason_for l u p) u) ps in
    elim (preview_namespace p.number) [
      | err e ↦ err e
      | ok namespace ↦ prepend namespace (reason_for l u p) rest
    ]

abbrev pub unused : Used
unused = record {
  count = 0;
  amounts = record { cpu = finite 0; memory = finite 0; pods = finite 0 };
}

-- `Math.min(aggregate, cluster - reserved)`, where that is not negative. The difference of two infinities
-- is NaN, and so is the minimum.
unfoldable pub budget : Double → Double → Double → Result DeliveryError Limit
unfolding round
budget aggregate infinite infinite = ok unlimited
budget aggregate infinite (finite reserved) = ok (at_most aggregate)
budget aggregate (finite cluster) infinite = err reservation_exceeds
budget aggregate (finite cluster) (finite reserved) =
    if ltb cluster reserved
    then err reservation_exceeds
    else ok (at_most (minimum aggregate (round (cluster - reserved))))

module _ (number : Str → Option ℕ) where
  unfoldable pub limits_of : PreviewCapacity → Result DeliveryError Limits
  unfolding parse_cpu parse_memory parse_pods budget
  limits_of c = do
    cluster_cpu ← parse_cpu c.cluster.cpu
    cluster_memory ← parse_memory c.cluster.memory
    reserved_cpu ← parse_cpu c.production_reservation.cpu
    reserved_memory ← parse_memory c.production_reservation.memory
    cpu ← parse_cpu c.aggregate.cpu
    memory ← parse_memory c.aggregate.memory
    cluster_pods ← parse_pods number c.cluster.pods
    reserved_pods ← parse_pods number c.production_reservation.pods
    pods ← parse_pods number c.aggregate.pods
    aggregate_cpu ← budget cpu cluster_cpu reserved_cpu
    aggregate_memory ← budget memory cluster_memory reserved_memory
    aggregate_pods ← budget (finite pods) (finite cluster_pods) (finite reserved_pods)
    per_cpu ← parse_cpu c.per_preview.cpu
    per_memory ← parse_memory c.per_preview.memory
    per_pods ← parse_pods number c.per_preview.pods
    ok (record {
      maximum = c.max_preview_environments;
      aggregate = record { cpu = aggregate_cpu; memory = aggregate_memory; pods = aggregate_pods };
      per_preview = record { cpu = per_cpu; memory = per_memory; pods = finite per_pods };
    })

  unfoldable pub reconcile_preview_admissions :
      List PreviewPullRequest → PreviewCapacity → Result DeliveryError (List PreviewAdmission)
  unfolding limits_of admit_all sort
  reconcile_preview_admissions candidates c =
      if leb c.max_preview_environments max_safe_integer && leb 1 c.max_preview_environments
      then elim (limits_of c) [ err e ↦ err e | ok l ↦ admit_all l unused (sort candidates) ]
      else err bad_maximum
