-- ===== src/Logs/Guarded.antt =====
-- Who sees logs, and what is left behind: packages/logs/src/index.ts, `requestRecentLogWindow`.
use tracegarden.Prelude.{
  ◌≡◌, refl, sym, ◌⊎◌, inl, inr, true, Option, none, some, List, [], ◌∷◌, ◌++◌, arith,
  if◌then◌else◌, Bool-cases, Option-cases, is_some, any, Str, ◌===◌, ===_iff, In,
}
use tracegarden.Prelude.Result.{Result, ok, err, Result-cases}
use tracegarden.Prelude.Value.{Value}
use tracegarden.Identity.{logs_read, has_capability}
use tracegarden.Cluster.{ClusterScope}
use tracegarden.Logs.Lines.{LogPayload, Bounded, bound_recent_log_window}
use tracegarden.Logs.Window.{RecentLogWindowInput, parse_recent_log_window_input}
use tracegarden.Logs.Request.{
  AuditOutcome, recorded, failed_without_record, failed_with_record, LogMember, LogError,
  unavailable, audit_unavailable, LogServices, LogEffects, RecentLogWindow, metadata_for,
  validate_scope, emit_telemetry, disclose, read_window, request_recent_log_window,
}

any-In : (a : Str) (xs : List Str) → any (λ x. x === a) xs ≡ true → In a xs
any-In a [] h = cc
any-In a (x ∷ xs) h = elim (Bool-cases (x === a)) [
  | inl e ↦ inl (sym ((===_iff x a).0 e))
  | inr e ↦ inr (any-In a xs (ground (arith, h)))
]

-- A cluster that is configured for the workspace, and an approved namespace of it.
abbrev pub IsApprovedFor : Str → RecentLogWindowInput → ClusterScope → Type 0
IsApprovedFor workspace_id request scope =
    (scope.workspace_id ≡ workspace_id)
    × (scope.cluster_id ≡ request.cluster_id)
    × In request.namespace scope.namespaces

validate_scope-IsApprovedFor :
    (scope : ClusterScope) (request : RecentLogWindowInput) (workspace_id : Str)
    → validate_scope (some scope) request workspace_id ≡ ok tt
    → IsApprovedFor workspace_id request scope
unfolding validate_scope
validate_scope-IsApprovedFor scope request workspace_id h = (
  ground (arith, ===_iff scope.workspace_id workspace_id),
  ground (arith, ===_iff scope.cluster_id request.cluster_id),
  any-In request.namespace scope.namespaces (ground arith),
)

module _ (services : LogServices) (member : LogMember) where
  -- No window is given and no event sent: the read failed and nothing is audited, or the audit failed,
  -- and then either nothing is audited or exactly the metadata of what was read, by a store that kept
  -- them and failed.
  abbrev pub Withheld :
      RecentLogWindowInput → LogEffects → Result LogError RecentLogWindow × LogEffects → Type 0
  Withheld request effects (r, after) =
      (after.reads ≡ effects.reads ++ request ∷ [])
      × (after.events ≡ effects.events)
      × (((r ≡ err unavailable)
            × (services.adapter request ≡ none)
            × (after.audits ≡ effects.audits))
          ⊎ ((payload : LogPayload) × (bounded : Bounded) × (r ≡ err audit_unavailable)
              × (services.adapter request ≡ some payload)
              × (bounded ≡ bound_recent_log_window payload request.tail)
              × ((after.audits ≡ effects.audits)
                  ⊎ (after.audits
                      ≡ effects.audits
                        ++ (member.id, metadata_for request bounded.line_count bounded.byte_count)
                          ∷ []))))

  Audit-cases :
      (a : AuditOutcome) → (a ≡ recorded) ⊎ ((a ≡ failed_without_record) ⊎ (a ≡ failed_with_record))
  Audit-cases recorded = inl refl
  Audit-cases failed_without_record = inr (inl refl)
  Audit-cases failed_with_record = inr (inr refl)

  -- The window is what the adapter gave within its bounds, and, where there is an audit store, its
  -- metadata stand in it under the member's id.
  abbrev pub Disclosed :
      RecentLogWindowInput → LogEffects → Result LogError RecentLogWindow × LogEffects → Type 0
  Disclosed request effects (r, after) =
      (payload : LogPayload) × (bounded : Bounded) × (services.adapter request ≡ some payload)
      × (bounded ≡ bound_recent_log_window payload request.tail)
      × (r ≡ ok (record { request = request; bounded = bounded }))
      × (after.reads ≡ effects.reads ++ request ∷ [])
      × (after.audits ≡ (
          if is_some services.audit_store
          then effects.audits
            ++ (member.id, metadata_for request bounded.line_count bounded.byte_count) ∷ []
          else effects.audits))

  read_window-guarded :
      (request : RecentLogWindowInput) (effects : LogEffects)
      → Withheld request effects (read_window services member request effects)
        ⊎ Disclosed request effects (read_window services member request effects)
  unfolding read_window disclose emit_telemetry
  read_window-guarded request effects = elim (Option-cases (services.adapter request)) [
    | inl e ↦ rw (e, read_window) (inl (refl, refl, inl (refl, refl, refl)))
    | inr (payload, e) ↦ elim (Option-cases services.audit_store) [
      | inl e' ↦
          rw (e, read_window, e', disclose)
            (inr
              (payload, bound_recent_log_window payload request.tail, refl, refl, refl, refl, refl))
      | inr (audit, e') ↦
          let b = bound_recent_log_window payload request.tail in
          let outcome = audit member.id (metadata_for request b.line_count b.byte_count) in
          elim (Audit-cases outcome) [
            | inl t ↦
                rw (e, read_window, e', disclose, t)
                  (inr (payload, b, refl, refl, refl, refl, refl))
            | inr failed ↦ elim failed [
              | inl t ↦
                  rw (e, read_window, e', disclose, t)
                    (inl (refl, refl, inr (payload, b, refl, refl, refl, inl refl)))
              | inr t ↦
                  rw (e, read_window, e', disclose, t)
                    (inl (refl, refl, inr (payload, b, refl, refl, refl, inr refl)))
            ]
          ]
    ]
  ]

  scope_cases :
      (scope : Option ClusterScope) (request : RecentLogWindowInput) (done : Unit {0})
      → validate_scope scope request member.workspace_id ≡ ok done
      → (sc : ClusterScope) × (scope ≡ some sc) × IsApprovedFor member.workspace_id request sc
  scope_cases none request done h = unfold validate_scope in cc
  scope_cases (some sc) request done h =
      (sc, refl, validate_scope-IsApprovedFor sc request member.workspace_id h)

  -- A request for logs either is refused and leaves everything as it was, without asking the cluster;
  -- or the member may read logs, the request is well formed, its cluster is configured for the
  -- member's workspace and its namespace approved, and the cluster is asked exactly this request. Then
  -- either the read or the audit failed, no text is given, no event sent, and nothing audited but what
  -- a store that fails may have kept of a read that succeeded; or the window is what the cluster gave
  -- within its bounds, and its metadata stand in the audit store, if there is one.
  pub request_recent_log_window-guarded :
      (scope : Option ClusterScope) (input : Value) (effects : LogEffects)
      → let outcome = request_recent_log_window services member scope input effects in
        ((e : LogError) × (outcome ≡ (err e, effects)))
        ⊎ ((request : RecentLogWindowInput) × (sc : ClusterScope) × (has_capability
                member.capabilities logs_read
              ≡ true)
            × (parse_recent_log_window_input input ≡ ok request)
            × (scope ≡ some sc)
            × IsApprovedFor member.workspace_id request sc
            × (Withheld request effects outcome ⊎ Disclosed request effects outcome))
  unfolding request_recent_log_window
  request_recent_log_window-guarded scope input effects =
      elim (Bool-cases (has_capability member.capabilities logs_read)) [
        | inr no_capability ↦ rw no_capability (inl (_, refl))
        | inl may ↦ elim (Result-cases (parse_recent_log_window_input input)) [
          | inl (issues, e) ↦ rw (may, e) (inl (_, refl))
          | inr (request, e) ↦
              elim (Result-cases (validate_scope scope request member.workspace_id)) [
                | inl (x, e') ↦ rw (may, e, e') (inl (x, refl))
                | inr (done, e') ↦
                    rw (may, e, e')
                      (let (sc, is, approved) = scope_cases scope request done e' in
                        inr (
                          request,
                          sc,
                          refl,
                          refl,
                          is,
                          approved,
                          read_window-guarded request effects,
                        ))
              ]
        ]
      ]
