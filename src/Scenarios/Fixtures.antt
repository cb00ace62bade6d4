-- ===== src/Scenarios/Fixtures.antt =====
-- A date library and a lower case that stand for those of the engine, and the records of a small
-- workspace.
use tracegarden.Prelude.{
  ℕ, ◌+◌, refl, Bool, not, ◌&&◌, Option, none, some, [], ◌∷◌, ◌++◌, map, leb, if◌then◌else◌, Str,
  js,
}
use tracegarden.Prelude.Dates.{Dates}
use tracegarden.Identity.{
  Role, owner, viewer, capabilities_for_role, ExternalIdentity, MemberRecord,
}
use tracegarden.Cluster.{Observation, pod, pod_facts, change, attention_needed, pod_not_ready}
use tracegarden.Admission.{
  Store, Known, Fresh, MembershipActor, AuthenticatedSession, InvitationRecord,
}

abbrev parse_unit : Str → Option ℕ
parse_unit [] = none
parse_unit (n ∷ []) = some n
parse_unit (n ∷ m ∷ s) = none

-- An instant is written as one code unit.
abbrev pub dates : Dates
dates = record { parse = parse_unit; iso = λ n. n ∷ []; parse-iso = λ n h. refl }

abbrev pub lower : Str → Str
lower s = map (λ c. if leb b'A' c && leb c b'Z' then c + 32 else c) s

abbrev pub person : Str → ExternalIdentity
person name = record {
  issuer = js "idp";
  subject = name;
  email = name ++ js "@Example.com";
  display_name = name;
}

abbrev pub member : Str → Role → MemberRecord
member name role = record {
  id = js "m-" ++ name;
  workspace_id = js "workspace-single";
  identity = person name;
  role = role;
  capabilities = capabilities_for_role role;
}

abbrev pub known : Str → Role → Known
known name role = record { identity = person name; member = member name role }

abbrev pub actor : Str → Role → MembershipActor
actor name role = record { id = js "m-" ++ name; capabilities = capabilities_for_role role }

abbrev pub session_of : Str → Role → Str → AuthenticatedSession
session_of name role token = record {
  token = token;
  expires_at = 100 ∷ [];
  member = member name role;
}

abbrev pub fresh : Str → Fresh
fresh name = record { id = js "m-" ++ name; audit_id = js "a-" ++ name; token = js "t-" ++ name }

abbrev pub invitation : InvitationRecord
invitation = record {
  id = js "i-1";
  workspace_id = js "workspace-single";
  email = js "bob@example.com";
  created_at = 1 ∷ [];
  revoked_at = none;
  accepted_at = none;
}

-- Alice owns the workspace, Vera may look at it, and Bob is invited.
abbrev pub workspace : Store
workspace = record {
  identities =
      (js "idp" ++ (0 ∷ js "alice"), known (js "alice") owner)
      ∷ (js "idp" ++ (0 ∷ js "vera"), known (js "vera") viewer)
      ∷ [];
  sessions =
      (js "s-alice", session_of (js "alice") owner (js "s-alice"))
      ∷ (js "s-vera", session_of (js "vera") viewer (js "s-vera"))
      ∷ [];
  invitations = (js "i-1", invitation) ∷ [];
  audits = [];
  bootstrap_issuer = js "idp";
  bootstrap_subject = js "alice";
}

-- A state of a pod, of which the kubelet says whether it is ready.
abbrev pub pod_state : Str → Bool → ℕ → Observation
pod_state version attention at = record {
  workspace_id = js "w";
  cluster_id = js "c";
  source_identity = js "u1";
  source_key = js "u1:" ++ version;
  kind = pod;
  uid = js "u1";
  name = js "api";
  namespace = js "apps";
  resource_version = some version;
  classification = if attention then attention_needed else change;
  attention = attention;
  attention_reason = if attention then some pod_not_ready else none;
  recovery_of = none;
  reason = none;
  message = none;
  owner_references = [];
  revision = none;
  labels = [];
  observed_at = at ∷ [];
  facts = pod_facts (some (js "Running")) (some (not attention));
}
