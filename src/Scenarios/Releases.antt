-- ===== src/Scenarios/Releases.antt =====
-- The theorems on delivery at three pull requests and one release, and on decisions and policies.
use mathlib.Core.List.{Perm}
use tracegarden.Prelude.{
  ℕ, zero, suc, ◌-◌, ◌^◌, ◌≡◌, refl, Bool, true, false, Option, none, some, List, [], ◌∷◌, ◌++◌,
  if◌then◌else◌, length, All, Str, js, ◌===◌, trim,
}
use tracegarden.Prelude.Value.{is_decimal, decimal, decimal_from, is_digit}
use tracegarden.Prelude.Result.{ok}
use tracegarden.Delivery.Quantities.{parse_cpu, parse_memory, parse_pods, unit_of}
use tracegarden.Delivery.Previews.{
  PreviewPullRequest, preview_namespace, number_text, digits_before,
}
use tracegarden.Delivery.Admissions.{
  PreviewCapacity, Limits, PreviewAdmission, admitted, ineligible, max_environments, limits_of,
  reconcile_preview_admissions, admit_all, unused, sort, insert, reason_for, use_for,
}
use tracegarden.Delivery.Environments.{
  Reconciliation, create, delete, orphan, closed, reconcile_preview_environments, actions_for,
  orphans,
}
use tracegarden.Delivery.Promotion.{Image, PromotionInput}
use tracegarden.Delivery.Reserved.{HasSafeCluster, LeavesReserved}
use tracegarden.Delivery.Budget.{Fits, count_admitted, reconcile_preview_admissions-Fits}
use tracegarden.Delivery.Doubles.{finite, infinite, plus, exceeds, at_most, round, rounded}
use tracegarden.Delivery.Refusals.{FirstCome}
use tracegarden.Delivery.Reconciled.{InOrder, Answers, reconcile_preview_admissions-FirstCome}
use tracegarden.Delivery.Justified.{IsJustified, reconcile_preview_environments-IsJustified}

abbrev pull : ℕ → Bool → Bool → PreviewPullRequest
pull n is_open draft = record { number = n; is_open = is_open; draft = draft }

-- The third is a draft.
abbrev pulls : List PreviewPullRequest
pulls = pull 12 true false ∷ pull 3 true false ∷ pull 7 true true ∷ pull 5 false false ∷ []

abbrev capacity : PreviewCapacity
capacity = record {
  max_preview_environments = 1;
  aggregate = record { cpu = js "2"; memory = js "8Gi"; pods = js "80" };
  cluster = record { cpu = js "4"; memory = js "16Gi"; pods = js "100" };
  production_reservation = record { cpu = js "2"; memory = js "4Gi"; pods = js "20" };
  per_preview = record { cpu = js "275m"; memory = js "704Mi"; pods = js "8" };
}

-- `Number` on decimal digits.
abbrev number : Str → Option ℕ
number s = if is_decimal s then some (decimal s) else none

abbrev answers : List PreviewAdmission
answers =
    record { namespace = js "preview-pr-3"; reason = admitted }
    ∷ record { namespace = js "preview-pr-5"; reason = ineligible }
    ∷ record { namespace = js "preview-pr-7"; reason = ineligible }
    ∷ record { namespace = js "preview-pr-12"; reason = max_environments }
    ∷ []

pulls_answered : reconcile_preview_admissions number pulls capacity ≡ ok answers
unfolding reconcile_preview_admissions limits_of parse_cpu parse_memory parse_pods unit_of
    is_decimal decimal decimal_from is_digit trim admit_all sort insert reason_for use_for
    preview_namespace number_text digits_before
pulls_answered = refl

safe : HasSafeCluster capacity
unfolding parse_cpu parse_memory unit_of is_decimal decimal decimal_from is_digit trim
safe = record {
  cpu = 4000;
  memory = 16777216;
  reads_cpu = refl;
  reads_memory = refl;
  safe_cpu = refl;
  safe_memory = refl;
}

reconcile_preview_admissions-Fits_example :
    (l : Limits) × (limits_of number capacity ≡ ok l)
    × LeavesReserved number capacity safe l
    × Fits l unused (count_admitted answers)
    × (length answers ≡ length pulls)
reconcile_preview_admissions-Fits_example =
    reconcile_preview_admissions-Fits number pulls capacity answers safe pulls_answered

reconcile_preview_admissions-FirstCome_example :
    (ordered : List PreviewPullRequest) × Perm ordered pulls
    × InOrder ordered
    × Answers ordered answers
    × FirstCome answers
reconcile_preview_admissions-FirstCome_example =
    reconcile_preview_admissions-FirstCome number pulls capacity answers pulls_answered

-- The namespaces of a closed pull request, of one that is gone, and of another purpose.
abbrev existing : List Str
existing = js "preview-pr-5" ∷ js "preview-pr-9" ∷ js "production" ∷ []

abbrev actions : List Reconciliation
actions =
    create (js "preview-pr-12")
    ∷ create (js "preview-pr-3")
    ∷ delete (js "preview-pr-5") closed
    ∷ delete (js "preview-pr-9") orphan
    ∷ []

existing_reconciled : reconcile_preview_environments pulls existing ≡ ok actions
unfolding reconcile_preview_environments actions_for orphans preview_namespace number_text
    digits_before ◌===◌
existing_reconciled = refl

reconcile_preview_environments-IsJustified_example : All (IsJustified pulls existing) actions
reconcile_preview_environments-IsJustified_example =
    reconcile_preview_environments-IsJustified pulls existing actions existing_reconciled

abbrev repeat : ℕ → ℕ → Str
repeat zero c = []
repeat (suc n) c = c ∷ repeat n c

abbrev image : Str → Image
image name = record { repository = name; digest = js "sha256:" ++ repeat 64 b'a' }

abbrev release : PromotionInput
release = record {
  release_commit = repeat 40 b'c';
  images = record {
    web = image (js "web");
    collector = image (js "collector");
    migrate = image (js "migrate");
    backup = image (js "backup");
  };
  environment = js "production";
  approved = true;
  reviewer = js "alice";
  gitops_repository = js "gitops";
  path = js "production";
  pull_request_required = true;
}

-- Three previews of 3002399751580331m each need 9007199254740993m, which is rounded to the even number
-- below, so it does not exceed 9007199254740992m.
three-plus_rounded :
    let size = finite 3002399751580331 in
    exceeds (plus (plus (plus (finite 0) size) size) size) (at_most (finite 9007199254740992))
    ≡ false
unfolding exceeds plus round rounded
three-plus_rounded = refl

-- Numbers of more than 53 bits: half way between two the even one is taken, and what is nearer to 2^1024
-- than to the largest number is an infinity.
round_half_even :
    (round 9007199254740993 ≡ finite 9007199254740992)
    × (round 9007199254740995 ≡ finite 9007199254740996)
    × (round 18014398509481990 ≡ finite 18014398509481992)
    × (round 36028797018963981 ≡ finite 36028797018963984)
    × (round (2 ^ 1024 - 1) ≡ infinite)
    × (round (2 ^ 1024 - 2 ^ 971) ≡ finite (2 ^ 1024 - 2 ^ 971))
unfolding round rounded
round_half_even = (refl, refl, refl, refl, refl, refl)
