-- ===== src/Delivery/Environments.antt =====
-- `reconcilePreviewEnvironments` of packages/delivery/src/index.ts.
use tracegarden.Prelude.{
  Bool, not, ◌&&◌, List, [], ◌∷◌, ◌++◌, if◌then◌else◌, take, any, Str, js, ◌===◌,
}
use tracegarden.Prelude.Result.{Result, ok, err}
use tracegarden.Delivery.Quantities.{DeliveryError}
use tracegarden.Delivery.Previews.{PreviewPullRequest, is_eligible, preview_namespace}

pub data Cause : Type 0 where
  closed draft orphan eligible : Cause

pub data Reconciliation : Type 0 where
  create : Str → Reconciliation
  delete : Str → Cause → Reconciliation

abbrev pub holds : List Str → Str → Bool
holds namespaces n = any (λ m. m === n) namespaces

abbrev pub cause_of : PreviewPullRequest → Cause
cause_of p = if p.is_open then draft else closed

-- What one pull request asks for.
abbrev pub action_for : List Str → PreviewPullRequest → Str → List Reconciliation
action_for existing p namespace =
    if is_eligible p
    then (if holds existing namespace then [] else create namespace ∷ [])
    else if holds existing namespace
    then delete namespace (cause_of p) ∷ []
    else []

-- The actions of the first loop, with the namespaces that it observes. The eligible ones are observed
-- too, so the second loop needs only those.
unfoldable pub actions_for :
    List Str → List PreviewPullRequest → Result DeliveryError (List Reconciliation × List Str)
actions_for existing [] = ok ([], [])
actions_for existing (p ∷ ps) =
    let rest = actions_for existing ps in
    elim (preview_namespace p.number) [
      | err e ↦ err e
      | ok namespace ↦ elim rest [
        | err e ↦ err e
        | ok (actions, observed) ↦
            ok (action_for existing p namespace ++ actions, namespace ∷ observed)
      ]
    ]

-- `namespace.startsWith("preview-pr-")`.
abbrev pub is_preview : Str → Bool
is_preview namespace = take 11 namespace === js "preview-pr-"

unfoldable pub orphans : List Str → List Str → List Reconciliation
orphans observed [] = []
orphans observed (n ∷ rest) =
    let later = orphans observed rest in
    if is_preview n && not (holds observed n) then delete n orphan ∷ later else later

unfoldable pub reconcile_preview_environments :
    List PreviewPullRequest → List Str → Result DeliveryError (List Reconciliation)
unfolding actions_for orphans
reconcile_preview_environments pull_requests existing = elim (actions_for existing pull_requests) [
  | err e ↦ err e
  | ok (actions, observed) ↦ ok (actions ++ orphans observed existing)
]
