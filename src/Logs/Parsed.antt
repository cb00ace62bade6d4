-- ===== src/Logs/Parsed.antt =====
-- Which requests for a window are accepted: packages/logs/src/index.ts,
-- `validateRecentLogWindowInput`.
use tracegarden.Prelude.{
  ℕ, ◌≤◌, ◌≡◌, refl, subst, Bool, true, Option, none, some, List, [], ◌∷◌, ◌++◌, arith, length, Str,
  js, ◌===◌, trim, truthy,
}
use tracegarden.Prelude.Result.{ok}
use tracegarden.Prelude.Value.{
  Value, whole, string, object, Fields, end, field, prop, split_on, is_digit,
}
use tracegarden.Domain.Names.{
  is_lower, is_upper, is_alphanumeric, is_dns_label, is_valid_cluster_id,
}
use tracegarden.Logs.Spaces.{trim-cluster_id, trim-dns_label, trim-subdomain}
use tracegarden.Logs.Lines.{log_max_lines}
use tracegarden.Logs.Window.{
  RecentLogWindowInput, LogField, cluster_id_field, namespace_field, container_field, LogIssue,
  is_dns_subdomain, pod_issue, text_issue, tail_of, tail_issue, window_of, window_issues, concluded,
  parse_recent_log_window_input, or_zero,
}

-- A window that may be asked for.
pub record IsWindow (w : RecentLogWindowInput) : Type 0 where
  pub valid_cluster : is_valid_cluster_id w.cluster_id ≡ true
  pub valid_namespace : (length w.namespace ≤ 63) × (is_dns_label w.namespace ≡ true)
  pub valid_pod : is_dns_subdomain w.pod ≡ true
  pub valid_container : (length w.container ≤ 63) × (is_dns_label w.container ≡ true)
  pub few_lines : (1 ≤ w.tail) × (w.tail ≤ log_max_lines)

pub no_issues {ℓ} : {A : Type ℓ} (xs ys : List A) → xs ++ ys ≡ [] → (xs ≡ []) × (ys ≡ [])
no_issues [] ys h = (refl, h)
no_issues (x ∷ xs) ys h = cc

text_issue-none :
    (n : ℕ) (pattern : Str → Bool) (name : LogField) (text : Str)
    → text_issue n pattern name text ≡ []
    → (truthy text ≡ true) × ((length text ≤ n) × (pattern text ≡ true))
text_issue-none n pattern name text h = (ground arith, (ground arith, ground arith))

pod_issue-none : (pod : Str) → pod_issue pod ≡ [] → is_dns_subdomain pod ≡ true
pod_issue-none pod h = ground arith

text_issue-empty :
    (n : ℕ) (pattern : Str → Bool) (name : LogField) (text : Str)
    → truthy text ≡ true
    → length text ≤ n
    → pattern text ≡ true
    → text_issue n pattern name text ≡ []
text_issue-empty n pattern name text h h' h'' = ground arith

tail_issue-none :
    (tail : Option ℕ) → tail_issue tail ≡ [] → (1 ≤ or_zero tail) × (or_zero tail ≤ log_max_lines)
tail_issue-none none h = cc
tail_issue-none (some n) h = (ground arith, ground arith)

window_issues-IsWindow : (fields : Fields) → window_issues fields ≡ [] → IsWindow (window_of fields)
unfolding window_issues
window_issues-IsWindow fields h =
    let w = window_of fields in
    let tail = tail_of (prop (js "tail") fields) in
    let container = text_issue 63 is_dns_label container_field w.container in
    let namespace = text_issue 63 is_dns_label namespace_field w.namespace in
    let pod = pod_issue w.pod in
    let a =
      no_issues (text_issue 128 is_valid_cluster_id cluster_id_field w.cluster_id)
        (namespace ++ (pod ++ (container ++ tail_issue tail))) h in
    let b = no_issues namespace (pod ++ (container ++ tail_issue tail)) a.1 in
    let c = no_issues pod (container ++ tail_issue tail) b.1 in
    let d = no_issues container (tail_issue tail) c.1 in
    record {
      valid_cluster =
          (text_issue-none 128 is_valid_cluster_id cluster_id_field w.cluster_id a.0).1.1;
      valid_namespace = (text_issue-none 63 is_dns_label namespace_field w.namespace b.0).1;
      valid_pod = pod_issue-none w.pod c.0;
      valid_container = (text_issue-none 63 is_dns_label container_field w.container d.0).1;
      few_lines = tail_issue-none tail d.1;
    }

concluded-ok :
    (issues : List LogIssue) (window w : RecentLogWindowInput)
    → concluded issues window ≡ ok w
    → (issues ≡ []) × (window ≡ w)
concluded-ok [] window w h = (refl, cc)
concluded-ok (issue ∷ issues) window w h = cc

-- A request object that asks for a window.
abbrev fields_of : RecentLogWindowInput → Fields
fields_of w = field (js "clusterId") (string w.cluster_id) (
    field (js "namespace") (string w.namespace) (
      field (js "pod") (string w.pod)
        (field (js "container") (string w.container) (field (js "tail") (whole w.tail) end))))

abbrev pub object_of : RecentLogWindowInput → Value
object_of w = object (fields_of w)

of_fields :
    (fields : Fields) (w : RecentLogWindowInput)
    → concluded (window_issues fields) (window_of fields) ≡ ok w
    → IsWindow w
of_fields fields w h =
    let (none_found, same) = concluded-ok (window_issues fields) (window_of fields) w h in
    subst IsWindow same (window_issues-IsWindow fields none_found)

-- Whatever request is accepted, it is for a window that may be asked for: a cluster id, a namespace
-- and a container that are valid names, a pod that is a valid subdomain, from 1 to 200 lines.
pub parse_recent_log_window_input-IsWindow :
    (input : Value) (w : RecentLogWindowInput)
    → parse_recent_log_window_input input ≡ ok w
    → IsWindow w
unfolding parse_recent_log_window_input
parse_recent_log_window_input-IsWindow (object fields) w h = of_fields fields w h
parse_recent_log_window_input-IsWindow input w h = cc

pod_issue-empty : (pod : Str) → is_dns_subdomain pod ≡ true → pod_issue pod ≡ []
pod_issue-empty [] h = unfold is_dns_subdomain split_on is_dns_label in cc
pod_issue-empty (c ∷ pod) h = rw h refl

truthy-dns_label : (s : Str) → is_dns_label s ≡ true → truthy s ≡ true
unfolding is_dns_label
truthy-dns_label s h = ground arith

cluster_id-shape : (s : Str) → is_valid_cluster_id s ≡ true → (truthy s ≡ true) × (length s ≤ 128)
unfolding is_valid_cluster_id is_alphanumeric is_lower is_upper is_digit
cluster_id-shape [] h = cc
cluster_id-shape (c ∷ s) h = (refl, ground arith)

tail_issue-within :
    (n : ℕ) → 1 ≤ n → n ≤ log_max_lines → (tail_of (whole n) ≡ some n) × (tail_issue (some n) ≡ [])
tail_issue-within n h h' = (ground arith, ground arith)

module _ (w : RecentLogWindowInput) (v : IsWindow w) where
  trimmed :
      (trim w.cluster_id ≡ w.cluster_id)
      × (trim w.namespace ≡ w.namespace)
      × (trim w.pod ≡ w.pod)
      × (trim w.container ≡ w.container)
  trimmed = (
    trim-cluster_id w.cluster_id v.valid_cluster,
    trim-dns_label w.namespace v.valid_namespace.1,
    trim-subdomain w.pod v.valid_pod,
    trim-dns_label w.container v.valid_container.1,
  )

  window_of-fields_of : window_of (fields_of w) ≡ w
  unfolding prop ◌===◌
  window_of-fields_of =
      rw (trimmed.0, trimmed.1, trimmed.2, trimmed.3)
        (let tail = (tail_issue-within w.tail v.few_lines.0 v.few_lines.1).0 in rw tail refl)

  window_issues-fields_of : window_issues (fields_of w) ≡ []
  unfolding window_issues ◌===◌
  window_issues-fields_of =
      let (t, short) = cluster_id-shape w.cluster_id v.valid_cluster in
      let (tail, few) = tail_issue-within w.tail v.few_lines.0 v.few_lines.1 in
      rw (trimmed.0, trimmed.1, trimmed.2, trimmed.3)
        (rw
          (
            text_issue-empty 128 is_valid_cluster_id cluster_id_field w.cluster_id t short
                v.valid_cluster,
            text_issue-empty 63 is_dns_label namespace_field w.namespace
                (truthy-dns_label w.namespace v.valid_namespace.1) v.valid_namespace.0
                v.valid_namespace.1,
            pod_issue-empty w.pod v.valid_pod,
            text_issue-empty 63 is_dns_label container_field w.container
                (truthy-dns_label w.container v.valid_container.1) v.valid_container.0
                v.valid_container.1,
            tail,
            few,
          )
          refl)

-- Every window that may be asked for can be: the request for it is accepted as it is.
pub parse_recent_log_window_input-object_of :
    (w : RecentLogWindowInput) → IsWindow w → parse_recent_log_window_input (object_of w) ≡ ok w
unfolding parse_recent_log_window_input
parse_recent_log_window_input-object_of w v =
    rw (window_issues-fields_of w v, window_of-fields_of w v) refl
