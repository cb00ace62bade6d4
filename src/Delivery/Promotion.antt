-- ===== src/Delivery/Promotion.antt =====
-- `createPromotionProposal` of packages/delivery/src/index.ts.
use tracegarden.Prelude.{
  Bool, ◌&&◌, List, [], ◌∷◌, ◌++◌, if◌then◌else◌, Str, js, ◌===◌, trim, truthy,
}
use tracegarden.Prelude.Result.{Result, ok, err}
use tracegarden.Delivery.Quantities.{
  DeliveryError, bad_commit, not_approved, not_reviewable, no_repository, bad_digest, is_git_commit,
  is_digest,
}

pub record Image : Type 0 where
  pub repository : Str
  pub digest : Str

-- One of each component.
pub record Components (A : Type 0) : Type 0 where
  pub web : A
  pub collector : A
  pub migrate : A
  pub backup : A

pub record PromotionInput : Type 0 where
  pub release_commit : Str
  pub images : Components Image
  pub environment : Str
  pub approved : Bool
  pub reviewer : Str
  pub gitops_repository : Str
  pub path : Str
  pub pull_request_required : Bool

pub record PromotionProposal : Type 0 where
  pub release_commit : Str
  pub desired_state : Components Str
  pub approved_by : Str

unfoldable pub check_image : Image → Result DeliveryError (Unit {0})
unfolding is_digest
check_image i =
    if truthy (trim i.repository)
    then if is_digest i.digest then ok tt else err bad_digest
    else err no_repository

unfoldable pub check_images : List Image → Result DeliveryError (Unit {0})
check_images [] = ok tt
check_images (i ∷ rest) =
    let later = check_images rest in elim (check_image i) [ err e ↦ err e | ok u ↦ later ]

-- `repository@digest`.
unfoldable pub reference : Image → Str
reference i = i.repository ++ (b'@' ∷ i.digest)

abbrev pub images_of : Components Image → List Image
images_of c = c.web ∷ c.collector ∷ c.migrate ∷ c.backup ∷ []

unfoldable pub propose : PromotionInput → PromotionProposal
unfolding reference
propose input = record {
  release_commit = input.release_commit;
  desired_state = record {
    web = reference input.images.web;
    collector = reference input.images.collector;
    migrate = reference input.images.migrate;
    backup = reference input.images.backup;
  };
  approved_by = trim input.reviewer;
}

unfoldable pub create_promotion_proposal : PromotionInput → Result DeliveryError PromotionProposal
unfolding propose is_git_commit
create_promotion_proposal input =
    if is_git_commit input.release_commit
    then if input.environment === js "production" && input.approved && truthy (trim input.reviewer)
      then if input.pull_request_required
          && truthy (trim input.gitops_repository)
          && truthy (trim input.path)
        then elim (check_images (images_of input.images)) [
          | err e ↦ err e
          | ok u ↦ ok (propose input)
        ]
        else err not_reviewable
      else err not_approved
    else err bad_commit
