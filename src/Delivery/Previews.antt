-- ===== src/Delivery/Previews.antt =====
-- Pull requests, the namespaces of their previews, and `createPreviewDeclaration`. A number that is
-- no positive integer is 0, which the code refuses as it does those.
use tracegarden.Prelude.{
  ℕ, zero, suc, ◌+◌, ◌/◌, ◌%◌, Bool, not, ◌&&◌, Option, none, some, [], ◌∷◌, ◌++◌, leb, ◌==◌,
  if◌then◌else◌, Str, js, ◌===◌,
}
use tracegarden.Prelude.Result.{Result, ok, err}
use tracegarden.Delivery.Quantities.{DeliveryError, bad_number, bad_source, is_git_commit}

pub record PreviewPullRequest : Type 0 where
  pub number : ℕ
  pub is_open : Bool
  pub draft : Bool

-- The digits of a number before a text, the last digit first. A safe integer has at most 16.
unfoldable pub digits_before : ℕ → ℕ → Str → Str
digits_before zero n text = text
digits_before (suc fuel) n text =
    let longer = digits_before fuel (n / 10) ((n % 10 + b'0') ∷ text) in
    if n == 0 then text else longer

-- `String(n)` for a positive safe integer.
unfoldable pub number_text : ℕ → Str
unfolding digits_before
number_text n = digits_before 16 n []

abbrev pub is_preview_number : ℕ → Bool
is_preview_number n = leb 1 n && leb n 999999999

unfoldable pub preview_namespace : ℕ → Result DeliveryError Str
unfolding number_text
preview_namespace n =
    if is_preview_number n then ok (js "preview-pr-" ++ number_text n) else err bad_number

pub record TrustedPreviewSource : Type 0 where
  pub repository : Str
  pub revision : Str

-- Requests and limits, each of processor and memory.
pub record PreviewResources : Type 0 where
  pub request_cpu : Str
  pub request_memory : Str
  pub limit_cpu : Str
  pub limit_memory : Str

-- What is the same in every declaration, such as the names of the applications, is left out.
pub record PreviewDeclaration : Type 0 where
  pub pull_request : ℕ
  pub source : TrustedPreviewSource
  pub namespace : Str
  pub database_name : Str
  pub secret_name : Str
  pub job_name : Str
  pub quota_name : Str
  pub web : PreviewResources
  pub collector : PreviewResources
  pub postgres : PreviewResources

abbrev pub trusted_repository : Str
trusted_repository = js "https://github.com/misaka9981/tracegarden-gitops.git"

abbrev small : PreviewResources
small = record {
  request_cpu = js "50m";
  request_memory = js "128Mi";
  limit_cpu = js "250m";
  limit_memory = js "256Mi";
}

abbrev large : PreviewResources
large = record {
  request_cpu = js "100m";
  request_memory = js "256Mi";
  limit_cpu = js "500m";
  limit_memory = js "512Mi";
}

abbrev declare : ℕ → TrustedPreviewSource → Str → PreviewDeclaration
declare n source namespace = record {
  pull_request = n;
  source = source;
  namespace = namespace;
  database_name = namespace ++ js "-postgres";
  secret_name = namespace ++ js "-database";
  job_name = namespace ++ js "-seed";
  quota_name = namespace ++ js "-quota";
  web = small;
  collector = small;
  postgres = large;
}

abbrev pub is_eligible : PreviewPullRequest → Bool
is_eligible p = p.is_open && not p.draft

unfoldable pub create_preview_declaration :
    PreviewPullRequest → TrustedPreviewSource → Result DeliveryError (Option PreviewDeclaration)
unfolding preview_namespace
create_preview_declaration p source =
    if is_eligible p
    then if is_preview_number p.number
      then if source.repository === trusted_repository && is_git_commit source.revision
        then elim (preview_namespace p.number) [
          | err e ↦ err e
          | ok namespace ↦ ok (some (declare p.number source namespace))
        ]
        else err bad_source
      else err bad_number
    else ok none
